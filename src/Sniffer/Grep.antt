-- ===== src/Sniffer/Grep.antt =====
-- src/sniffer/SniffTcp.cc: `grep_contiguous_block_for_chunks`, one search of a stored block for a
-- whole response. `object_bytes` is what stands in memory where the string object of the block does:
-- the code takes that address for the address of the bytes when a response is in the middle.
pub mod Response
pub mod Flows
use ditto.Prelude.{
  ℕ, ◌+◌, Bool, true, false, ◌&&◌, Option, none, some, List, [], ◌∷◌, ◌++◌, add32, ltb, leb, ◌==◌,
  drop, length, if◌then◌else◌, ◌>>=◌,
}
use ditto.Block.{ContiguousBlock, new_block, append}
use ditto.Wire.{rpc_header, mask_size_in_bytes, at_mask, get_length_from_byte_stream}
use ditto.Sniffer.{SniffTcp, send_chunk_to_sniffer_plugin}

-- The loop over the bytes, from byte `i` on: where the response starts and where it stops. One that
-- is longer than the block ends the search, since `i` is behind the block then.
pub grep_from : ℕ → List ℕ → ℕ → Option (Option (ℕ × ℕ))
grep_from size [] i = some none
grep_from size (c ∷ p) i =
    let rest = grep_from size p (i + 1) in
    if c == rpc_header && ltb (i + 3) size && ltb (i + 8 + mask_size_in_bytes) size
    then (do
      payload_length ← get_length_from_byte_stream (c ∷ p)
      hit ← at_mask (drop 8 (c ∷ p))
      (if hit
          then some (
              if leb (add32 i (payload_length + 4)) size
              then some (i, add32 i (payload_length + 4))
              else none)
          else rest))
    else rest

-- What is left of a block: its bytes from `stop` on. `next_expected_seq_number` stays.
pub trim : ContiguousBlock → ℕ → ContiguousBlock
trim b stop = record b {
  starting_seq_number = add32 b.starting_seq_number stop;
  contiguous_block = drop stop b.contiguous_block;
}

-- The state, the blocks that are put before the block, and the block. The source's case for a
-- response that ends one byte behind the block cannot occur, since a test before it rules it out.
module _ (object_bytes : ContiguousBlock → List ℕ) where
  pub grep_contiguous_block_for_chunks :
      SniffTcp → ContiguousBlock → Option (SniffTcp × List ContiguousBlock × ContiguousBlock)
  grep_contiguous_block_for_chunks s b = do
    found ← grep_from (length b.contiguous_block) b.contiguous_block 0
    elim found [
      | none ↦ some (s, [], record b { b_modified = false })
      | some (start, stop) ↦ do
        t ← send_chunk_to_sniffer_plugin s (drop start (b.contiguous_block ++ (0 ∷ [])))
        (if start == 0
            then some (t, [], trim b stop)
            else some (
              t,
              record (append new_block (object_bytes b) start b.starting_seq_number) {
                b_modified = false;
              }
                  ∷ [],
              trim b stop,
            ))
    ]
