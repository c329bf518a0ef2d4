-- ===== src/Chunk/Chain.antt =====
-- The blocks of a chunk stay well formed, in order and apart.
use ditto.Prelude.{
  ℕ, suc, ◌+◌, ◌≤◌, ◌<◌, ◌≡◌, ◌^◌, List, [], ◌∷◌, arith, length, take, take_all, sub32, add32,
}
use ditto.Block.{ContiguousBlock, new_block, append, overlapping_append, prepend}
use ditto.Block.Slices.{Agrees, Agrees-take}
use ditto.Block.Order.{IsBlock, new_block-IsBlock, prepend-IsBlock, overlapping_append-IsBlock}
use ditto.Chunk.Cases.{absorb_cases, before_cases, inside_cases, place_cases}
use ditto.Chunk.{absorb, prune, before, inside, place}

-- Between `lo` and `hi`, each block with a gap of at least one byte before the next.
abbrev pub Chain : (ℕ → ℕ) → ℕ → ℕ → List ContiguousBlock → Type 0
Chain d lo hi [] = Unit {0}
Chain d lo hi (b ∷ bs) =
    (lo ≤ b.starting_seq_number)
    × IsBlock d b
    × (b.next_expected_seq_number ≤ hi)
    × Chain d (suc b.next_expected_seq_number) hi bs

module _ (d : ℕ → ℕ) where
  absorb-Chain :
      (lo lo' hi dups : ℕ) (b : ContiguousBlock) (bs : List ContiguousBlock)
      → hi < 2 ^ 32
      → lo ≤ b.starting_seq_number
      → b.next_expected_seq_number ≤ hi
      → IsBlock d b
      → Chain d lo' hi bs
      → Chain d lo hi (absorb b bs dups).blocks
  absorb-Chain lo lo' hi dups b [] w l h v c = unfold absorb in (l, v, h, tt)
  absorb-Chain lo lo' hi dups b (x ∷ cs) w l h v c =
      absorb_cases (λ p. Chain d lo hi p.blocks) b x cs dups
        (λ reached longer. (
          unfold overlapping_append in l,
          overlapping_append-IsBlock d b x.contiguous_block x.starting_seq_number
              x.next_expected_seq_number (omega arith) reached c.1.extent (omega arith) c.1.agrees
              v,
          unfold overlapping_append in c.2,
          unfold overlapping_append in c.3,
        ))
        (λ shorter. absorb-Chain lo (suc x.next_expected_seq_number) hi _ b cs w l h v c.3)
        (λ apart. (l, v, h, (apart, c.1, c.2, c.3)))

  module _ (hi n size : ℕ) (payload : List ℕ) (small : hi < 2 ^ 32) (whole : size ≡ length payload)
      (some_bytes : 0 < size) (fits : n + size ≤ hi) (agrees : Agrees d n payload) where
    before-Chain :
        (lo dups : ℕ) (b : ContiguousBlock) (bs : List ContiguousBlock)
        → lo ≤ n
        → n < b.starting_seq_number
        → Chain d lo hi (b ∷ bs)
        → Chain d lo hi (before payload size n dups b bs).blocks
    before-Chain lo dups b bs l s c =
        before_cases (λ p. Chain d lo hi p.blocks) payload size n dups b bs (omega arith)
          (λ touches. (
            unfold prepend in l,
            prepend-IsBlock d b payload size n (omega arith) touches agrees c.1,
            unfold prepend in c.2,
            unfold prepend in c.3,
          ))
          (λ apart. (
            unfold append new_block in l,
            new_block-IsBlock d payload size n (omega arith) some_bytes (omega arith) agrees,
            unfold append new_block in omega arith,
            (unfold append new_block in omega arith, c.1, c.2, c.3),
          ))
          (λ reaches.
            unfold prune in
            (
              unfold prepend in l,
              prepend-IsBlock d b payload (sub32 b.starting_seq_number n) n
                  (omega (arith, c.1.nonempty)) (omega (arith, c.1.nonempty)) agrees c.1,
              unfold prepend in c.2,
              unfold prepend in c.3,
            ))

    inside-Chain :
        (lo dups : ℕ) (b : ContiguousBlock) (bs : List ContiguousBlock)
        → n ≤ b.next_expected_seq_number
        → Chain d lo hi (b ∷ bs)
        → Chain d lo hi (inside payload size n dups b bs).blocks
    inside-Chain lo dups b bs l c =
        inside_cases (λ p. Chain d lo hi p.blocks) payload size n dups b bs (omega arith)
          (λ more.
            absorb-Chain lo (suc b.next_expected_seq_number) hi _
              (overlapping_append b (take size payload) (sub32 b.next_expected_seq_number n)
                (add32 n size))
              bs small (unfold overlapping_append in c.0) (unfold overlapping_append in omega arith)
              (overlapping_append-IsBlock d b (take size payload) n (add32 n size) (omega arith) l
                (rw (take_all size payload (omega arith)) (omega arith)) (omega arith)
                (Agrees-take d n size payload agrees) c.1)
              c.3)
          (λ none. c)

    -- The packet is stored in place, and the blocks stay in order, apart and true to the stream.
    pub place-Chain :
        (lo dups : ℕ) (bs : List ContiguousBlock)
        → lo ≤ n
        → Chain d lo hi bs
        → Chain d lo hi (place payload size n dups bs).blocks
    place-Chain lo dups [] l c =
        unfold place in
        (
          unfold append new_block in l,
          new_block-IsBlock d payload size n (omega arith) some_bytes (omega arith) agrees,
          unfold append new_block in omega arith,
          tt,
        )
    place-Chain lo dups (b ∷ bs) l c =
        place_cases (λ p. Chain d lo hi p.blocks) payload size n dups b bs
          (λ left. before-Chain lo dups b bs l left c)
          (λ from within. inside-Chain lo dups b bs within c)
          (λ from right.
            (c.0, c.1, c.2, place-Chain (suc b.next_expected_seq_number) dups bs right c.3))
