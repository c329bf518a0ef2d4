-- ===== src/Chunk/Coverage.antt =====
-- Which positions of the chunk are held, and what a packet adds to them.
use ditto.Prelude.{
  ℕ, suc, ◌+◌, ◌≤◌, ◌<◌, ◌≡◌, refl, ◌∙◌, ◌^◌, Bool, false, ◌&&◌, ◌||◌, List, [], ◌∷◌, arith, add32,
  sub32, ltb, leb, take, if◌then◌else◌,
}
use ditto.Block.{ContiguousBlock, new_block, append, overlapping_append, prepend}
use ditto.Chunk.{absorb, prune, before, inside, place}
use ditto.Chunk.Cases.{absorb_cases, before_cases, inside_cases, place_cases}
use ditto.Chunk.Chain.{Chain}

abbrev pub within : ℕ → ℕ → ℕ → Bool
within p s e = leb s p && ltb p e

-- Position `p` lies in one of the blocks.
abbrev pub covered : ℕ → List ContiguousBlock → Bool
covered p [] = false
covered p (b ∷ bs) = within p b.starting_seq_number b.next_expected_seq_number || covered p bs

-- Where the stored part of the packet from `n` to `e` ends: at `e`, unless the packet starts in a
-- gap and runs past the whole of the next block. Then it is cut off where that block ends.
abbrev pub accepted_end : ℕ → ℕ → List ContiguousBlock → ℕ
accepted_end n e [] = e
accepted_end n e (b ∷ bs) =
    if ltb n b.starting_seq_number
    then (if ltb b.next_expected_seq_number e then b.next_expected_seq_number else e)
    else if leb n b.next_expected_seq_number
    then e
    else accepted_end n e bs

module _ (d : ℕ → ℕ) (p : ℕ) where
  covered-absorb :
      (lo hi dups : ℕ) (b : ContiguousBlock) (bs : List ContiguousBlock)
      → b.starting_seq_number ≤ lo
      → Chain d lo hi bs
      → covered p (absorb b bs dups).blocks
        ≡ within p b.starting_seq_number b.next_expected_seq_number || covered p bs
  covered-absorb lo hi dups b [] l c = unfold absorb in refl
  covered-absorb lo hi dups b (x ∷ cs) l c =
      absorb_cases
        (λ q.
          covered p q.blocks
          ≡ within p b.starting_seq_number b.next_expected_seq_number || covered p (x ∷ cs))
        b x cs dups (λ reached longer. unfold overlapping_append in ground arith)
        (λ shorter.
          covered-absorb (suc x.next_expected_seq_number) hi _ b cs (omega (arith, c.1.nonempty))
            c.3
          ∙ ground (arith, c.1.nonempty, c.0))
        (λ apart. refl)

  module _ (hi n size : ℕ) (payload : List ℕ) (small : hi < 2 ^ 32) (fits : n + size ≤ hi)
      (some_bytes : 0 < size) where
    covered-before :
        (lo dups : ℕ) (b : ContiguousBlock) (bs : List ContiguousBlock)
        → n < b.starting_seq_number
        → Chain d lo hi (b ∷ bs)
        → covered p (before payload size n dups b bs).blocks
          ≡ covered p (b ∷ bs) || within p n (accepted_end n (n + size) (b ∷ bs))
    covered-before lo dups b bs l c =
        before_cases
          (λ q.
            covered p q.blocks
            ≡ covered p (b ∷ bs) || within p n (accepted_end n (n + size) (b ∷ bs)))
          payload size n dups b bs (omega arith)
          (λ touches. unfold prepend in ground (arith, c.1.nonempty))
          (λ apart. unfold append new_block in ground (arith, c.1.nonempty))
          (λ reaches. unfold prune prepend in ground (arith, c.1.nonempty))

    covered-inside :
        (lo dups : ℕ) (b : ContiguousBlock) (bs : List ContiguousBlock)
        → b.starting_seq_number ≤ n
        → n ≤ b.next_expected_seq_number
        → Chain d lo hi (b ∷ bs)
        → covered p (inside payload size n dups b bs).blocks
          ≡ covered p (b ∷ bs) || within p n (accepted_end n (n + size) (b ∷ bs))
    covered-inside lo dups b bs f l c =
        inside_cases
          (λ q.
            covered p q.blocks
            ≡ covered p (b ∷ bs) || within p n (accepted_end n (n + size) (b ∷ bs)))
          payload size n dups b bs (omega arith)
          (λ more.
            covered-absorb (suc b.next_expected_seq_number) hi _
              (overlapping_append b (take size payload) (sub32 b.next_expected_seq_number n)
                (add32 n size))
              bs (unfold overlapping_append in omega (arith, c.1.nonempty)) c.3
            ∙ unfold overlapping_append in ground arith)
          (λ none. ground arith)

    -- A packet with at least one byte, inside a chunk below 2 ^ 32: the positions held afterwards
    -- are those held before and those of the packet up to `accepted_end`.
    pub covered-place :
        (lo dups : ℕ) (bs : List ContiguousBlock)
        → Chain d lo hi bs
        → covered p (place payload size n dups bs).blocks
          ≡ covered p bs || within p n (accepted_end n (n + size) bs)
    covered-place lo dups [] c = unfold place append new_block in ground arith
    covered-place lo dups (b ∷ bs) c =
        place_cases
          (λ q.
            covered p q.blocks
            ≡ covered p (b ∷ bs) || within p n (accepted_end n (n + size) (b ∷ bs)))
          payload size n dups b bs (λ left. covered-before lo dups b bs left c)
          (λ from in_it. covered-inside lo dups b bs from in_it c)
          (λ from right. ground (arith, covered-place (suc b.next_expected_seq_number) dups bs c.3))
