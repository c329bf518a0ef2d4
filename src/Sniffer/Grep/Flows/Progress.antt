-- ===== src/Sniffer/Grep/Flows/Progress.antt =====
-- One search of a block shortens it, or finds nothing in it.
use ditto.Prelude.{
  ℕ, ◌+◌, ◌-◌, ◌<◌, ◌≤◌, ◌^◌, ◌≡◌, refl, ◌⊎◌, inl, inr, false, ◌&&◌, Option, none, some, List, [],
  ◌∷◌, ◌++◌, All, add32, ltb, leb, ◌==◌, drop, length, length-drop, arith, if◌then◌else◌, ◌>>=◌,
  Bool-cases, Returns, >>=-Returns, Returns-any, if-Returns,
}
use ditto.Block.{ContiguousBlock, new_block, append}
use ditto.Wire.{rpc_header, mask_size_in_bytes, at_mask, get_length_from_byte_stream}
use ditto.Wire.Bounds.{get_length_bound}
use ditto.Sniffer.{SniffTcp, send_chunk_to_sniffer_plugin}
use ditto.Sniffer.Grep.{grep_from, trim, grep_contiguous_block_for_chunks}
use ditto.Sniffer.Grep.Flows.{Searched, again}

-- A response that was found stops behind the first byte and inside the block.
abbrev Found : ℕ → Option (ℕ × ℕ) → Type 0
Found size none = Unit
Found size (some (start, stop)) = (0 < stop) × (stop ≤ size)

grep_from-Found :
    (size : ℕ) (p : List ℕ) (i : ℕ)
    → size < 2 ^ 31 - 8
    → i + length p ≡ size
    → Returns (Found size) (grep_from size p i)
unfolding grep_from
grep_from-Found size [] i h e = tt
grep_from-Found size (c ∷ p) i h e =
    let rest = grep_from-Found size p (i + 1) h (omega arith) in
    if-Returns (Found size)
      (c == rpc_header && ltb (i + 3) size && ltb (i + 8 + mask_size_in_bytes) size) _ _
      (>>=-Returns (λ n. n < 2 ^ 31) (Found size) (get_length_from_byte_stream (c ∷ p)) _
        (get_length_bound (c ∷ p))
        (λ n l.
          >>=-Returns (λ hit. at_mask (drop 8 (c ∷ p)) ≡ some hit) (Found size)
            (at_mask (drop 8 (c ∷ p))) _ (Returns-any (at_mask (drop 8 (c ∷ p))))
            (λ hit m.
              if-Returns (Found size) hit _ _ (accepted n (add32 i (n + 4)) (omega arith)) rest)))
      rest
  where
    accepted : (n stop : ℕ) → 0 < stop → Found size (if leb stop size then some (i, stop) else none)
    accepted n stop l = elim (Bool-cases (leb stop size)) [
      | inl b ↦ rw b (l, ground arith)
      | inr b ↦ rw b tt
    ]

-- A block that is not searched again.
abbrev pub Quiet : ContiguousBlock → Type 0
Quiet b = again b ≡ false

-- One search: the blocks in front are quiet, and the block is, or it is shorter than it was.
abbrev pub Progress : ContiguousBlock → Searched → Type 0
Progress b (s, new, b') =
    All Quiet new × (Quiet b' ⊎ (length b'.contiguous_block < length b.contiguous_block))

-- Blocks of bounded size.
abbrev pub Fits : List ContiguousBlock → Type 0
Fits bs = All (λ b. length b.contiguous_block < 2 ^ 31 - 8) bs

module _ (object_bytes : ContiguousBlock → List ℕ) where
  pub grep-Progress :
      (s : SniffTcp) (b : ContiguousBlock)
      → length b.contiguous_block < 2 ^ 31 - 8
      → Returns (Progress b) (grep_contiguous_block_for_chunks object_bytes s b)
  unfolding grep_contiguous_block_for_chunks trim
  grep-Progress s b h =
      >>=-Returns (Found (length b.contiguous_block)) (Progress b)
        (grep_from (length b.contiguous_block) b.contiguous_block 0) _
        (grep_from-Found (length b.contiguous_block) b.contiguous_block 0 h (omega arith)) found
    where
      found :
          (o : Option (ℕ × ℕ))
          → Found (length b.contiguous_block) o
          → Returns (Progress b) (elim o [
            | none ↦ some (s, [], record b { b_modified = false })
            | some q ↦ do
              t ← send_chunk_to_sniffer_plugin s (drop (q.0) (b.contiguous_block ++ (0 ∷ [])))
              (if q.0 == 0
                  then some (t, [], trim b (q.1))
                  else some (
                    t,
                    record (append new_block (object_bytes b) (q.0) b.starting_seq_number) {
                      b_modified = false;
                    }
                        ∷ [],
                    trim b (q.1),
                  ))
          ])
      found none f = (tt, inl refl)
      found (some (start, stop)) f =
          >>=-Returns
            (λ t.
              send_chunk_to_sniffer_plugin s (drop start (b.contiguous_block ++ (0 ∷ []))) ≡ some t)
            (Progress b)
            (send_chunk_to_sniffer_plugin s (drop start (b.contiguous_block ++ (0 ∷ [])))) _
            (Returns-any
              (send_chunk_to_sniffer_plugin s (drop start (b.contiguous_block ++ (0 ∷ [])))))
            (λ t e.
              if-Returns (Progress b) (start == 0) _ _
                (tt, inr (omega (arith, f.0, f.1, length-drop stop b.contiguous_block)))
                ((refl, tt), inr (omega (arith, f.0, f.1, length-drop stop b.contiguous_block))))
