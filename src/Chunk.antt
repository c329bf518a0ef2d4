-- ===== src/Chunk.antt =====
-- src/sniffer/reconstructed_chunk.{h,cc}: a chunk put together from the packets of several flows.
-- The blocks of a chunk are never null pointers, so the source's null tests are left out; the
-- creation time, which nothing reads, is left out too. `*p_numDuplicateBytes`, an unsigned long of
-- 64 bits, is passed in and returned.
pub mod Accounts
mod Cases
pub mod Chain
pub mod Coverage
pub mod Complete
pub mod Delivery
use ditto.Prelude.{
  ℕ, Bool, true, false, ◌&&◌, Option, none, some, List, [], ◌∷◌, ◌++◌, add32, sub32, add64, sub64,
  take, ltb, leb, ◌==◌, length, if◌then◌else◌,
}
use ditto.Prelude.Bytes.{Bytes, find, put_new}
use ditto.Block.{ContiguousBlock, new_block, append, overlapping_append, prepend}

pub record ReconstructedChunk : Type 0 where
  pub chunk_id : Bytes
  pub chunk_length : ℕ
  pub lcb : List ContiguousBlock
  pub flow_seq_map : List (Bytes × ℕ)
  pub uniquely_contributing_flows : List (Bytes × ℕ)

-- The constructor.
unfoldable pub new_chunk : Bytes → ℕ → ReconstructedChunk
new_chunk cid len = record {
  chunk_id = cid;
  chunk_length = len;
  lcb = [];
  flow_seq_map = [];
  uniquely_contributing_flows = [];
}

-- What the loop over the blocks leaves: the blocks, whether the packet was a duplicate, the count.
pub record Placed : Type 0 where
  pub blocks : List ContiguousBlock
  pub b_duplicate : Bool
  pub num_duplicate_bytes : ℕ

-- The `while (li2 != lcb.end ())` loop: the blocks behind `b` that it now reaches are merged.
unfoldable pub absorb : ContiguousBlock → List ContiguousBlock → ℕ → Placed
absorb b [] dups = record { blocks = b ∷ []; b_duplicate = false; num_duplicate_bytes = dups }
absorb b (c ∷ cs) dups =
    let beyond =
      absorb b cs (sub64 (add64 dups c.next_expected_seq_number) c.starting_seq_number) in
    if leb c.starting_seq_number b.next_expected_seq_number
    then if ltb b.next_expected_seq_number c.next_expected_seq_number
      then record {
        blocks =
            overlapping_append b c.contiguous_block
              (sub32 b.next_expected_seq_number c.starting_seq_number) c.next_expected_seq_number
            ∷ cs;
        b_duplicate = false;
        num_duplicate_bytes = sub64 (add64 dups b.next_expected_seq_number) c.starting_seq_number;
      }
      else beyond
    else record { blocks = b ∷ c ∷ cs; b_duplicate = false; num_duplicate_bytes = dups }

-- `prepend` of the part of the packet before the block; the last two branches of the source do it.
pub prune : List ℕ → ℕ → ℕ → ℕ → ContiguousBlock → List ContiguousBlock → Placed
prune payload size n dups b bs = record {
  blocks = prepend b payload (sub32 b.starting_seq_number n) n ∷ bs;
  b_duplicate = false;
  num_duplicate_bytes = sub64 (add64 dups size) (sub32 b.starting_seq_number n);
}

-- The branch `normalized_seq_num < (*li)->starting_seq_number`.
pub before : List ℕ → ℕ → ℕ → ℕ → ContiguousBlock → List ContiguousBlock → Placed
unfolding prune
before payload size n dups b bs =
    if add32 n size == b.starting_seq_number
    then record {
      blocks = prepend b payload size n ∷ bs;
      b_duplicate = false;
      num_duplicate_bytes = dups;
    }
    else if ltb (add32 n size) b.starting_seq_number
    then record {
      blocks = append new_block payload size n ∷ b ∷ bs;
      b_duplicate = false;
      num_duplicate_bytes = dups;
    }
    else if leb (add32 n size) b.next_expected_seq_number
    then prune payload size n dups b bs
    else prune payload size n dups b bs

-- The branch in which the packet starts inside the block, or where it ends.
pub inside : List ℕ → ℕ → ℕ → ℕ → ContiguousBlock → List ContiguousBlock → Placed
inside payload size n dups b bs =
    if ltb b.next_expected_seq_number (add32 n size)
    then absorb
        (overlapping_append b (take size payload) (sub32 b.next_expected_seq_number n)
          (add32 n size))
        bs (sub64 (add64 dups b.next_expected_seq_number) n)
    else record { blocks = b ∷ bs; b_duplicate = true; num_duplicate_bytes = add64 dups size }

-- The loop over the blocks, and the block at the end of the list when no block took the packet.
unfoldable pub place : List ℕ → ℕ → ℕ → ℕ → List ContiguousBlock → Placed
unfolding before inside
place payload size n dups [] = record {
  blocks = append new_block payload size n ∷ [];
  b_duplicate = false;
  num_duplicate_bytes = dups;
}
place payload size n dups (b ∷ bs) =
    let rest = place payload size n dups bs in
    if ltb n b.starting_seq_number
    then before payload size n dups b bs
    else if leb b.starting_seq_number n && leb n b.next_expected_seq_number
    then inside payload size n dups b bs
    else record rest { blocks = b ∷ rest.blocks }

-- `(*lcb.begin ())->p_s_contiguous_block->size () >= length`. The list is not empty there.
unfoldable pub is_complete : ℕ → List ContiguousBlock → Bool
is_complete len [] = false
is_complete len (b ∷ bs) = leb len (length b.contiguous_block)

pub record Filled : Type 0 where
  pub chunk : ReconstructedChunk
  pub num_duplicate_bytes : ℕ
  pub b_chunk_done : Bool

unfoldable pub fill_from : ReconstructedChunk → Bytes → Placed → Filled
fill_from rc flow p =
    if p.b_duplicate
    then record {
      chunk = record rc { lcb = p.blocks };
      num_duplicate_bytes = p.num_duplicate_bytes;
      b_chunk_done = false;
    }
    else record {
      chunk = record rc {
        lcb = p.blocks;
        uniquely_contributing_flows = put_new flow 0 rc.uniquely_contributing_flows;
      };
      num_duplicate_bytes = p.num_duplicate_bytes;
      b_chunk_done = is_complete rc.chunk_length p.blocks;
    }

unfoldable pub fill_gaps_in_chunk : ReconstructedChunk → Bytes → List ℕ → ℕ → ℕ → ℕ → Filled
unfolding fill_from
fill_gaps_in_chunk rc flow payload size seq_num dups = elim (find flow rc.flow_seq_map) [
  | none ↦ record { chunk = rc; num_duplicate_bytes = dups; b_chunk_done = false }
  | some start ↦ fill_from rc flow (place payload size (sub32 seq_num start) dups rc.lcb)
]

-- `none` is the read through `lcb.begin ()` of an empty list.
unfoldable pub get_data : ReconstructedChunk → Option (List ℕ)
get_data rc = elim rc.lcb [ [] ↦ none | b ∷ bs ↦ some b.contiguous_block ]
