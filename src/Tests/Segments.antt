-- ===== src/Tests/Segments.antt =====
-- A response that comes in one packet, and the steps on it.
use ditto.SnifferPlugin.Stored.{
  received, Segment, IsWhole, segments, with_chunks, segments-received,
}
use ditto.Prelude.{ℕ, ◌+◌, ◌≡◌, refl, true, false, some, List, [], ◌∷◌, ◌++◌, arith, length}
use ditto.Prelude.Bytes.{bytes_eq, find}
use ditto.Chunk.{ReconstructedChunk, get_data}
use ditto.FlowId.{FlowId, to_string}
use ditto.Wire.Response.{response, length-response}
use ditto.Sniffer.{SniffTcp, report}
use ditto.Sniffer.Dispatch.{handle_segment}
use ditto.Sniffer.Capture.{ntohs_at, handle_ethernet, my_callback_ethernet}
use ditto.Sniffer.Report.{report-response, put_chunk}
use ditto.Sniffer.OnePacket.{one_packet_response}
use ditto.Tests.Streams.{zeros}

abbrev pub start : SniffTcp
start = record {
  flow_list = [];
  flow_chunk_map = [];
  chunks = [];
  num_chunks_sniffed = 0;
  num_packets_captured = 0;
  num_tcp_packets_captured = 0;
  num_bytes_of_tcp_packets_captured = 0;
  num_bytes_of_chunks_sniffed = 0;
  num_duplicate_bytes = 0;
  put_chunks = [];
}

abbrev local : FlowId
local = record { src_ip = b'1' ∷ []; dst_ip = b'3' ∷ []; src_port = 80; dst_port = 12 }

abbrev whole : List ℕ
whole = response 1096 1 0 0 (zeros 20) (zeros 1024) (zeros 4)

whole_size : length whole ≡ 1096
whole_size =
    length-response 1096 1 0 0 (zeros 20) (zeros 1024) (zeros 4) (omega arith) (omega arith) refl
      (omega arith) (omega arith)

one_packet_response_example :
    (t : SniffTcp) × (handle_segment true start local (whole ++ zeros 4) (length whole + 4) 7
      ≡ some t)
    × (t.put_chunks ≡ record { dat = zeros 1024; end = true } ∷ [])
unfolding find
one_packet_response_example =
    one_packet_response 1096 1 0 0 (zeros 20) (zeros 1024) (zeros 4) (zeros 4) (omega arith)
      (omega arith) refl (omega arith) (omega arith) whole_size local 7 (omega arith) (omega arith)
      start refl refl refl

abbrev chunk : ReconstructedChunk
chunk = record {
  chunk_id = zeros 20;
  chunk_length = 1096;
  lcb =
      record {
        starting_seq_number = 0;
        next_expected_seq_number = 1096;
        contiguous_block = whole;
        b_init = false;
        b_modified = true;
      }
      ∷ [];
  flow_seq_map = [];
  uniquely_contributing_flows = [];
}

abbrev filled : SniffTcp
filled = record start { chunks = (zeros 20, chunk) ∷ [] }

known : find (zeros 20) filled.chunks ≡ some chunk
unfolding find bytes_eq
known = refl

held : get_data chunk ≡ some whole
unfolding get_data
held = refl

report-response_example : report filled (zeros 20) ≡ some (put_chunk filled (zeros 1024))
report-response_example =
    report-response filled (zeros 20) chunk 1096 1 0 0 (zeros 20) (zeros 1024) (zeros 4)
      (omega arith) (omega arith) refl (omega arith) (omega arith) known held

-- Two flows, each with one response.
abbrev one : Segment
one = record {
  fid = local;
  seq_num = 7;
  len = 1096;
  xid = 1;
  hi = 0;
  lo = 0;
  id = zeros 20;
  bytes = zeros 1024;
  tail = zeros 4;
}

abbrev other : Segment
other = record one { fid = record local { src_ip = b'2' ∷ [] }; id = 1 ∷ zeros 19 }

one-IsWhole : IsWhole one
one-IsWhole = record {
  short = omega arith;
  long = omega arith;
  id_size = refl;
  data_size = omega arith;
  data_fits = omega arith;
  whole_size = whole_size;
  no_wrap = omega arith;
}

other-IsWhole : IsWhole other
other-IsWhole = record {
  short = omega arith;
  long = omega arith;
  id_size = refl;
  data_size = omega arith;
  data_fits = omega arith;
  whole_size =
      length-response 1096 1 0 0 (1 ∷ zeros 19) (zeros 1024) (zeros 4) (omega arith) (omega arith)
        refl (omega arith) (omega arith);
  no_wrap = omega arith;
}

segments-received_example :
    (t : SniffTcp) × (segments start (one ∷ other ∷ []) ≡ some t)
    × (received (λ b. b) t.put_chunks
        ≡ with_chunks (λ b. b) (one ∷ other ∷ []) (received (λ b. b) start.put_chunks))
unfolding find bytes_eq to_string
segments-received_example =
    segments-received (λ b. b) start (one ∷ other ∷ []) (one-IsWhole, (other-IsWhole, tt))
      (((refl, refl), tt), (tt, tt)) ((refl, refl), ((refl, refl), tt)) refl

-- A frame of another type is let through.
other_frame : my_callback_ethernet (λ a. a) true start (zeros 60) ≡ some start
unfolding my_callback_ethernet handle_ethernet ntohs_at
other_frame = refl
