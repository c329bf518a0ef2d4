-- ===== src/Wifi.antt =====
-- src/sniffer/SniffTcp.{h,cc}, with the macros of src/sniffer/ieee802_11.h and extract.h: 802.11
-- frames. `my_callback_wifi` calls `handle_80211` with the captured bytes. The functions print what
-- they find; here they return it. A read outside the frame is a fault, `none`. The frame check
-- sequence, whose sum `crc32_802` of crc32.cc is a parameter, is read and compared, and the result of
-- the comparison is not used.
pub mod Total
use ditto.Prelude.{
  ℕ, ◌+◌, ◌-◌, ◌*◌, ◌/◌, Bool, true, false, ◌&&◌, ◌||◌, not, Option, none, some, List, bit_and, ltb,
  ◌==◌, drop, get_elem?, length, if◌then◌else◌, ◌>>=◌,
}
use ditto.Prelude.Bytes.{Bytes}
use ditto.Wire.{bytes_at, ntohl_at}

-- What `handle_llc` finds: a header that is cut off, another protocol, an IP packet of a length, or
-- another type.
pub data Llc : Type 0 where
  truncated : Llc
  not_encapsulated : Llc
  ip_packet : ℕ → Llc
  other_type : ℕ → Llc

pub record FrameControl : Type 0 where
  pub duration : ℕ
  pub seq : ℕ
  pub frag : ℕ

-- `data_hdr_ibss_t`, `data_hdr_t` (sa, da, bssid) and `data_hdr_wds_t` (ra, ta, da).
pub data DataHeader : Type 0 where
  ibss : FrameControl → DataHeader
  infrastructure : FrameControl → Bytes → Bytes → Bytes → DataHeader
  wds : FrameControl → Bytes → Bytes → Bytes → DataHeader

pub data Body : Type 0 where
  no_body : Body
  wep : Body
  llc : Llc → Body

pub data Frame : Type 0 where
  ignored : Frame
  data_frame : DataHeader → Body → Frame

-- `EXTRACT_LE_16BITS` and `pletohs`.
unfoldable pub extract_le_16bits : List ℕ → ℕ → Option ℕ
extract_le_16bits p i = do lo ← get_elem? p i; hi ← get_elem? p (i + 1); some (hi * 256 + lo)

-- `EXTRACT_16BITS`.
unfoldable pub extract_16bits : List ℕ → ℕ → Option ℕ
extract_16bits p i = do hi ← get_elem? p i; lo ← get_elem? p (i + 1); some (hi * 256 + lo)

-- `EXTRACT_24BITS`.
unfoldable pub extract_24bits : List ℕ → ℕ → Option ℕ
extract_24bits p i = do a ← get_elem? p i; bc ← extract_16bits p (i + 1); some (a * 256 * 256 + bc)

abbrev pub fc_type : ℕ → ℕ
fc_type fc = bit_and (fc / 4) 0x3

abbrev pub fc_subtype : ℕ → ℕ
fc_subtype fc = bit_and (fc / 16) 0xf

abbrev pub fc_to_ds : ℕ → Bool
fc_to_ds fc = not (bit_and fc 0x0100 == 0)

abbrev pub fc_from_ds : ℕ → Bool
fc_from_ds fc = not (bit_and fc 0x0200 == 0)

abbrev pub fc_wep : ℕ → Bool
fc_wep fc = not (bit_and fc 0x4000 == 0)

-- The header of a control frame of a subtype.
unfoldable pub control_header_length : ℕ → ℕ
control_header_length subtype =
    if subtype == 0xa
    then 16
    else if subtype == 0xb
    then 16
    else if subtype == 0xc
    then 10
    else if subtype == 0xd
    then 10
    else if subtype == 0xe
    then 16
    else if subtype == 0xf
    then 16
    else 0

unfoldable pub extract_header_length : ℕ → ℕ
extract_header_length fc =
    if fc_type fc == 0
    then 24
    else if fc_type fc == 1
    then control_header_length (fc_subtype fc)
    else if fc_type fc == 2
    then (if fc_to_ds fc && fc_from_ds fc then 30 else 24)
    else 0

-- `len` can be negative in the source, and is 0 here then; both are below 7.
unfoldable pub handle_llc : List ℕ → ℕ → Option Llc
handle_llc p len = if ltb len 7 then some truncated else (do
  dsap ← get_elem? p 0
  ssap ← get_elem? p 1
  control ← get_elem? p 2
  oui ← extract_24bits p 3
  type ← extract_16bits p 6
  (if not (oui == 0) && not (oui == 0xf8)
      then some not_encapsulated
      else if type == 0x0800
      then some (ip_packet (len - 8))
      else some (other_type type)))

-- What follows the header, of `hdrlen` bytes.
unfoldable pub handle_body : List ℕ → ℕ → ℕ → ℕ → DataHeader → Option Frame
handle_body p len fc hdrlen hdr = if fc_wep fc then some (data_frame hdr wep) else (do
  found ← handle_llc (drop hdrlen p) (len - hdrlen - 4)
  some (data_frame hdr (llc found)))

-- The three addresses of a frame between an access point and a station.
unfoldable pub infrastructure_frame : List ℕ → ℕ → ℕ → FrameControl → ℕ → ℕ → ℕ → Option Frame
infrastructure_frame p len fc control sa_at da_at bssid_at = do
  sa ← bytes_at p sa_at 6
  da ← bytes_at p da_at 6
  bssid ← bytes_at p bssid_at 6
  handle_body p len fc 24 (infrastructure control sa da bssid)

-- `hdr.da` is set twice: the second value stays.
pub wds_frame : List ℕ → ℕ → ℕ → FrameControl → Option Frame
wds_frame p len fc control = do
  ra ← bytes_at p 4 6
  ta ← bytes_at p 10 6
  old_da ← bytes_at p 16 6
  da ← bytes_at p 24 6
  handle_body p len fc 30 (wds control ra ta da)

unfoldable pub handle_data_frame : List ℕ → ℕ → ℕ → Option Frame
handle_data_frame p len fc = do
  du ← extract_le_16bits p 2
  seq_ctl ← extract_le_16bits p 22
  let control : FrameControl = record {
    duration = du;
    seq = bit_and seq_ctl 0xfff0 / 16;
    frag = bit_and seq_ctl 0x000f;
  }
  (if not (fc_to_ds fc) && not (fc_from_ds fc)
      then some (data_frame (ibss control) no_body)
      else if not (fc_to_ds fc) && fc_from_ds fc
      then infrastructure_frame p len fc control 16 4 10
      else if fc_to_ds fc && not (fc_from_ds fc)
      then infrastructure_frame p len fc control 10 16 4
      else wds_frame p len fc control)

module _ (crc32_802 : Bytes → ℕ) where
  -- `fcs_ok`: the last four bytes, when there is room for them, against the sum of the bytes before.
  unfoldable pub read_fcs : List ℕ → ℕ → ℕ → Option Bool
  read_fcs p len hdrlen = if ltb len (hdrlen + 4) then some false else (do
    fcs_sent ← ntohl_at p (len - 4)
    packet ← bytes_at p 0 (len - 4)
    some (crc32_802 packet == fcs_sent))

  unfoldable pub handle_80211 : List ℕ → ℕ → Option Frame
  handle_80211 p len = if ltb len 2 then some ignored else (do
    fc ← extract_le_16bits p 0
    (if ltb len 2 || ltb len (extract_header_length fc) then some ignored else (do
      fcs_ok ← read_fcs p len (extract_header_length fc)
      (if fc_type fc == 2 then handle_data_frame p len fc else some ignored))))
