-- ===== src/Chunk/Cases.antt =====
-- Case rules: what each loop of `fill_gaps_in_chunk` returns, by how the packet lies to the block,
-- for packets that end below 2 ^ 32.
use ditto.Prelude.{
  ℕ, ◌+◌, ◌≤◌, ◌<◌, ◌≡◌, ◌^◌, true, false, List, ◌∷◌, arith, take, sub32, add32, add64, sub64,
}
use ditto.Block.{ContiguousBlock, new_block, append, overlapping_append, prepend}
use ditto.Chunk.{Placed, absorb, prune, before, inside, place}

pub absorb_cases :
    (P : Placed → Type 0) (b x : ContiguousBlock) (cs : List ContiguousBlock) (dups : ℕ)
    → (x.starting_seq_number ≤ b.next_expected_seq_number
        → b.next_expected_seq_number < x.next_expected_seq_number
        → P (record {
          blocks =
              overlapping_append b x.contiguous_block
                (sub32 b.next_expected_seq_number x.starting_seq_number)
                x.next_expected_seq_number
              ∷ cs;
          b_duplicate = false;
          num_duplicate_bytes = sub64 (add64 dups b.next_expected_seq_number) x.starting_seq_number;
        }))
    → (x.next_expected_seq_number ≤ b.next_expected_seq_number
        → P (absorb b cs (sub64 (add64 dups x.next_expected_seq_number) x.starting_seq_number)))
    → (b.next_expected_seq_number < x.starting_seq_number
        → P (record { blocks = b ∷ x ∷ cs; b_duplicate = false; num_duplicate_bytes = dups }))
    → P (absorb b (x ∷ cs) dups)
unfolding absorb
absorb_cases P b x cs dups longer shorter apart = ground arith

module _ (P : Placed → Type 0) (payload : List ℕ) (size n dups : ℕ) (b : ContiguousBlock)
    (bs : List ContiguousBlock) (small : n + size < 2 ^ 32) where
  pub before_cases :
      (n + size ≡ b.starting_seq_number
        → P (record {
          blocks = prepend b payload size n ∷ bs;
          b_duplicate = false;
          num_duplicate_bytes = dups;
        }))
      → (n + size < b.starting_seq_number
          → P (record {
            blocks = append new_block payload size n ∷ b ∷ bs;
            b_duplicate = false;
            num_duplicate_bytes = dups;
          }))
      → (b.starting_seq_number < n + size → P (prune payload size n dups b bs))
      → P (before payload size n dups b bs)
  unfolding before
  before_cases touches apart reaches = ground arith

  pub inside_cases :
      (b.next_expected_seq_number < n + size
        → P (
            absorb
              (overlapping_append b
                (take size payload)
                (sub32 b.next_expected_seq_number n)
                (add32 n size))
              bs
              (sub64 (add64 dups b.next_expected_seq_number) n)))
      → (n + size ≤ b.next_expected_seq_number
          → P (record {
            blocks = b ∷ bs;
            b_duplicate = true;
            num_duplicate_bytes = add64 dups size;
          }))
      → P (inside payload size n dups b bs)
  unfolding inside
  inside_cases more none = ground arith

module _ (P : Placed → Type 0) (payload : List ℕ) (size n dups : ℕ) (b : ContiguousBlock)
    (bs : List ContiguousBlock) where
  pub place_cases :
      (n < b.starting_seq_number → P (before payload size n dups b bs))
      → (b.starting_seq_number ≤ n
          → n ≤ b.next_expected_seq_number
          → P (inside payload size n dups b bs))
      → (b.starting_seq_number ≤ n
          → b.next_expected_seq_number < n
          → P (record (place payload size n dups bs) {
            blocks = b ∷ (place payload size n dups bs).blocks;
          }))
      → P (place payload size n dups (b ∷ bs))
  unfolding place
  place_cases left within right = ground arith
