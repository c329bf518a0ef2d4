-- ===== src/Sniffer/Capture.antt =====
-- src/sniffer/SniffTcp.{h,cc}: from a captured Ethernet frame to the segment of a flow.
-- `my_callback_ethernet`, `handle_ethernet` and the tests of `handle_ip`. A packet is the list of its
-- captured bytes; `inet_ntoa`, of the C library, is a parameter.
use ditto.Prelude.{
  ℕ, ◌+◌, ◌-◌, ◌*◌, ◌/◌, ◌^◌, Bool, ◌&&◌, not, Option, some, List, add32, sub32, add64, ltb, ◌==◌,
  bit_and, drop, take, length, get_elem?, if◌then◌else◌, ◌>>=◌,
}
use ditto.Prelude.Bytes.{Bytes}
use ditto.FlowId.{FlowId}
use ditto.Wire.{ntohl_at}
use ditto.Sniffer.{SniffTcp}
use ditto.Sniffer.Dispatch.{handle_segment}

abbrev ether_hdrlen : ℕ
ether_hdrlen = 14

abbrev ethertype_ip : ℕ
ethertype_ip = 0x0800

abbrev ipproto_tcp : ℕ
ipproto_tcp = 6

-- `sizeof (struct sniff_ip)`.
abbrev size_of_sniff_ip : ℕ
size_of_sniff_ip = 20

-- `ntohs` of the field at an offset.
unfoldable pub ntohs_at : List ℕ → ℕ → Option ℕ
ntohs_at p i = do hi ← get_elem? p i; lo ← get_elem? p (i + 1); some (hi * 256 + lo)

-- `~0` as a `u_int16_t` for a frame that is too short.
unfoldable pub handle_ethernet : List ℕ → Option ℕ
handle_ethernet packet =
    if ltb (length packet) ether_hdrlen then some 0xffff else ntohs_at packet 12

-- The source's tests of the IP header, up to the protocol.
unfoldable pub accepts_ip : ℕ → ℕ → ℕ → ℕ → ℕ → Bool
accepts_ip captured len ip_hlen version protocol =
    version == 4 && not (ltb ip_hlen 20) && not (ltb captured len) && protocol == ipproto_tcp

-- `size_payload > 0`, where the difference is an `unsigned int` that the source takes for an `int`.
unfoldable pub size_payload : ℕ → ℕ → ℕ → ℕ
size_payload len ip_hlen size_tcp_header =
    let size = sub32 len (add32 ip_hlen size_tcp_header) in if ltb size (2 ^ 31) then size else 0

module _ (inet_ntoa : Bytes → Bytes) (multi_chances : Bool) where
  -- The flow of a segment.
  unfoldable pub flow_of : List ℕ → List ℕ → Option FlowId
  flow_of ip_packet tcp = do
    sport ← ntohs_at tcp 0
    dport ← ntohs_at tcp 2
    some (record {
      src_ip = inet_ntoa (take 4 (drop 12 ip_packet));
      dst_ip = inet_ntoa (take 4 (drop 16 ip_packet));
      src_port = sport;
      dst_port = dport;
    })

  -- The part of `handle_ip` behind `handle_tcp`.
  unfoldable pub handle_tcp : SniffTcp → List ℕ → ℕ → ℕ → Option SniffTcp
  handle_tcp s ip_packet len ip_hlen = do
    let tcp : List ℕ = drop ip_hlen ip_packet
    offx2 ← get_elem? tcp 12
    let size_tcp_header : ℕ = bit_and offx2 0xf0 / 16 * 4
    let size : ℕ = size_payload len ip_hlen size_tcp_header
    (if ltb size_tcp_header 20
        then some s
        else if ltb 0 size
        then (do
          seq_num ← ntohl_at tcp 4
          fid ← flow_of ip_packet tcp
          handle_segment multi_chances
              (record s {
                num_tcp_packets_captured = add32 s.num_tcp_packets_captured 1;
                num_bytes_of_tcp_packets_captured = add64 s.num_bytes_of_tcp_packets_captured size;
              })
              fid (drop size_tcp_header tcp) size seq_num)
        else some s)

  unfoldable pub handle_ip : SniffTcp → ℕ → List ℕ → Option SniffTcp
  handle_ip s captured ip_packet = if ltb captured size_of_sniff_ip then some s else (do
    vhl ← get_elem? ip_packet 0
    len ← ntohs_at ip_packet 2
    protocol ← get_elem? ip_packet 9
    (if accepts_ip captured len (bit_and vhl 0x0f * 4) (bit_and vhl 0xf0 / 16) protocol
        then handle_tcp s ip_packet len (bit_and vhl 0x0f * 4)
        else some s))

  -- Frames of other types are let through.
  unfoldable pub my_callback_ethernet : SniffTcp → List ℕ → Option SniffTcp
  my_callback_ethernet s packet = do
    ether_type ← handle_ethernet packet
    (if ether_type == ethertype_ip
        then handle_ip s (length packet - ether_hdrlen) (drop ether_hdrlen packet)
        else some s)
