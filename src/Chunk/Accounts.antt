-- ===== src/Chunk/Accounts.antt =====
-- Every byte of a packet is either stored or counted as a duplicate.
use ditto.Prelude.{
  ℕ, suc, ◌+◌, ◌-◌, ◌≤◌, ◌<◌, ◌≡◌, refl, ◌∙◌, ◌^◌, ◌%◌, List, [], ◌∷◌, arith, add32, sub32, take,
}
use ditto.Block.{ContiguousBlock, new_block, append, overlapping_append, prepend}
use ditto.Chunk.{Placed, absorb, prune, before, inside, place}
use ditto.Chunk.Cases.{absorb_cases, before_cases, inside_cases, place_cases}
use ditto.Chunk.Chain.{Chain}

-- The number of bytes that the blocks hold.
abbrev pub stored : List ContiguousBlock → ℕ
stored [] = 0
stored (b ∷ bs) = b.next_expected_seq_number - b.starting_seq_number + stored bs

-- What the packet's bytes came to, modulo the 2 ^ 64 of the counter.
abbrev pub total : Placed → ℕ
total q = (stored q.blocks + q.num_duplicate_bytes) % 2 ^ 64

module _ (d : ℕ → ℕ) where
  total-absorb :
      (lo hi dups : ℕ) (b : ContiguousBlock) (bs : List ContiguousBlock)
      → hi < 2 ^ 32
      → b.starting_seq_number ≤ lo
      → b.starting_seq_number ≤ b.next_expected_seq_number
      → b.next_expected_seq_number ≤ hi
      → Chain d lo hi bs
      → total (absorb b bs dups)
        ≡ (b.next_expected_seq_number - b.starting_seq_number + stored bs + dups) % 2 ^ 64
  total-absorb lo hi dups b [] w l o h c = unfold absorb in refl
  total-absorb lo hi dups b (x ∷ cs) w l o h c =
      absorb_cases
        (λ q.
          total q
          ≡ (b.next_expected_seq_number - b.starting_seq_number + stored (x ∷ cs) + dups) % 2 ^ 64)
        b x cs dups
        (λ reached longer. unfold overlapping_append in omega (arith, c.1.nonempty, c.0))
        (λ shorter.
          total-absorb (suc x.next_expected_seq_number) hi _ b cs w
            (omega (arith, c.1.nonempty, c.0)) o h c.3
          ∙ omega (arith, c.1.nonempty, c.0))
        (λ apart. omega arith)

  module _ (hi n size : ℕ) (payload : List ℕ) (small : hi < 2 ^ 32) (fits : n + size ≤ hi) where
    total-before :
        (lo dups : ℕ) (b : ContiguousBlock) (bs : List ContiguousBlock)
        → n < b.starting_seq_number
        → Chain d lo hi (b ∷ bs)
        → total (before payload size n dups b bs) ≡ (stored (b ∷ bs) + dups + size) % 2 ^ 64
    total-before lo dups b bs l c =
        before_cases (λ q. total q ≡ (stored (b ∷ bs) + dups + size) % 2 ^ 64) payload size n dups b
          bs (omega arith) (λ touches. unfold prepend in omega (arith, c.1.nonempty))
          (λ apart. unfold append new_block in omega (arith, c.1.nonempty))
          (λ reaches. unfold prune prepend in omega (arith, c.1.nonempty, c.2))

    total-inside :
        (lo dups : ℕ) (b : ContiguousBlock) (bs : List ContiguousBlock)
        → b.starting_seq_number ≤ n
        → n ≤ b.next_expected_seq_number
        → Chain d lo hi (b ∷ bs)
        → total (inside payload size n dups b bs) ≡ (stored (b ∷ bs) + dups + size) % 2 ^ 64
    total-inside lo dups b bs f l c =
        inside_cases (λ q. total q ≡ (stored (b ∷ bs) + dups + size) % 2 ^ 64) payload size n dups b
          bs (omega arith)
          (λ more.
            total-absorb (suc b.next_expected_seq_number) hi _
              (overlapping_append b (take size payload) (sub32 b.next_expected_seq_number n)
                (add32 n size))
              bs small (unfold overlapping_append in omega (arith, c.1.nonempty))
              (unfold overlapping_append in omega (arith, c.1.nonempty))
              (unfold overlapping_append in omega arith) c.3
            ∙ unfold overlapping_append in omega (arith, c.1.nonempty))
          (λ none. omega arith)

    -- A packet inside a chunk below 2 ^ 32: the bytes stored and the duplicate bytes counted grow
    -- together by the size of the packet, modulo 2 ^ 64.
    pub total-place :
        (lo dups : ℕ) (bs : List ContiguousBlock)
        → Chain d lo hi bs
        → total (place payload size n dups bs) ≡ (stored bs + dups + size) % 2 ^ 64
    total-place lo dups [] c = unfold place append new_block in omega arith
    total-place lo dups (b ∷ bs) c =
        place_cases (λ q. total q ≡ (stored (b ∷ bs) + dups + size) % 2 ^ 64) payload size n dups b
          bs (λ left. total-before lo dups b bs left c)
          (λ from in_it. total-inside lo dups b bs from in_it c)
          (λ from right. omega (arith, total-place (suc b.next_expected_seq_number) dups bs c.3))
