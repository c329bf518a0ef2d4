-- ===== src/Tests/Stored.antt =====
-- A stored block that starts with a response.
use ditto.Prelude.{
  Returns, length-append, [], ◌∷◌, ℕ, true, false, ◌+◌, ◌≡◌, refl, some, List, ◌++◌, arith, length,
}
use ditto.Block.{ContiguousBlock}
use ditto.Wire.Response.{response, length-response}
use ditto.Sniffer.Report.{put_chunk}
use ditto.Sniffer.Grep.{grep_contiguous_block_for_chunks}
use ditto.Sniffer.Grep.Response.{grep-response}
use ditto.Tests.Streams.{zeros}
use ditto.Sniffer.{SniffTcp}
use ditto.Sniffer.Grep.Flows.{grep_flows_for_chunks}
use ditto.Sniffer.Grep.Flows.Ends.{AllSearched, grep_flows_for_chunks-AllSearched}
use ditto.Tests.Segments.{start}

abbrev record_bytes : List ℕ
record_bytes = response 1096 1 0 0 (zeros 20) (zeros 1024) (zeros 8)

record_size : length record_bytes ≡ 1096 + 4
record_size =
    length-response 1096 1 0 0 (zeros 20) (zeros 1024) (zeros 8) (omega arith) (omega arith) refl
      (omega arith) (omega arith)

abbrev block : ContiguousBlock
block = record {
  starting_seq_number = 5;
  next_expected_seq_number = 1108;
  contiguous_block = record_bytes ++ zeros 3;
  b_init = false;
  b_modified = true;
}

grep-response_example :
    grep_contiguous_block_for_chunks (λ b. []) start block
    ≡ some (
      put_chunk start (zeros 1024),
      [],
      record block { starting_seq_number = 1105; contiguous_block = zeros 3 },
    )
grep-response_example =
    grep-response 1096 1 0 0 (zeros 20) (zeros 1024) (zeros 8) (zeros 3) (omega arith) (omega arith)
      refl (omega arith) (omega arith) record_size (λ b. []) start block refl

-- A flow with that block: the search ends, and leaves nothing to search.
abbrev holding : SniffTcp
holding = record start {
  flow_list =
      (record { src_ip = 1 ∷ []; dst_ip = 2 ∷ []; src_port = 3; dst_port = 4 }, block ∷ []) ∷ [];
}

grep_flows_for_chunks-AllSearched_example :
    Returns AllSearched (grep_flows_for_chunks (λ b. []) holding)
grep_flows_for_chunks-AllSearched_example =
    grep_flows_for_chunks-AllSearched (λ b. []) holding
      ((omega (arith, length-append record_bytes (zeros 3), record_size), tt), tt)
