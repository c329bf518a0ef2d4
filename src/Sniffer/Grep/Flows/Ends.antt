-- ===== src/Sniffer/Grep/Flows/Ends.antt =====
-- The loops of `grep_flows_for_chunks` end, and what they leave.
use ditto.Prelude.{
  ℕ, zero, suc, ◌-◌, ◌<◌, ◌^◌, ◌≡◌, refl, inl, inr, Bool, true, false, Option, none, some, List, [],
  ◌∷◌, ◌++◌, All, ◌==◌, length, arith, if◌then◌else◌, ◌>>=◌, Bool-cases, Returns, >>=-Returns,
}
use ditto.Block.{ContiguousBlock}
use ditto.Flows.{FlowList}
use ditto.Sniffer.{SniffTcp}
use ditto.Sniffer.Grep.{grep_contiguous_block_for_chunks}
use ditto.Sniffer.Grep.Flows.{
  Searched, again, grep_block, grep_blocks, grep_each, grep_flows_for_chunks,
}
use ditto.Sniffer.Grep.Flows.Progress.{Quiet, Progress, Fits, grep-Progress}

module _ (object_bytes : ContiguousBlock → List ℕ) where
  -- The inner loop has ended.
  abbrev Stopped : Option Searched → Type 0
  Stopped none = ⊥
  Stopped (some (s, before, b)) = All Quiet before × Quiet b

  All-append : (xs ys : List ContiguousBlock) → All Quiet xs → All Quiet ys → All Quiet (xs ++ ys)
  All-append [] ys h g = g
  All-append (x ∷ xs) ys h g = (h.0, All-append xs ys (h.1) g)

  grep_block-Quiet :
      (n : ℕ) (s : SniffTcp) (before : List ContiguousBlock) (b : ContiguousBlock)
      → Quiet b
      → grep_block object_bytes n s before b ≡ some (some (s, before, b))
  unfolding grep_block
  grep_block-Quiet zero s before b q = rw q refl
  grep_block-Quiet (suc n) s before b q = rw (grep_block, q) refl

  grep_block_search :
      (n : ℕ) (s : SniffTcp) (before : List ContiguousBlock) (b : ContiguousBlock)
      → again b ≡ true
      → grep_block object_bytes (suc n) s before b ≡ (
          grep_contiguous_block_for_chunks object_bytes s b
          >>= (λ r. grep_block object_bytes n (r.0) (before ++ r.1) (r.2)))
  unfolding grep_block
  grep_block_search n s before b q = rw (grep_block, q) refl

  grep_block-Stopped :
      (n : ℕ) (s : SniffTcp) (before : List ContiguousBlock) (b : ContiguousBlock)
      → length b.contiguous_block < n
      → length b.contiguous_block < 2 ^ 31 - 8
      → All Quiet before
      → Returns Stopped (grep_block object_bytes n s before b)
  grep_block-Stopped zero s before b l h g = absurd (omega arith)
  grep_block-Stopped (suc n) s before b l h g = elim (Bool-cases (again b)) [
    | inr q ↦ rw (grep_block-Quiet (suc n) s before b q) (g, q)
    | inl q ↦ rw (grep_block_search n s before b q) (
        >>=-Returns (Progress b) Stopped (grep_contiguous_block_for_chunks object_bytes s b) _
          (grep-Progress object_bytes s b h)
          (λ r p. elim (p.1) [
            | inl z ↦
                rw (grep_block-Quiet n (r.0) (before ++ r.1) (r.2) z)
                  (All-append before (r.1) g (p.0), z)
            | inr z ↦
                grep_block-Stopped n (r.0) (before ++ r.1) (r.2) (omega arith) (omega arith)
                  (All-append before (r.1) g (p.0))
          ]))
  ]

  -- The blocks that a loop leaves are quiet.
  abbrev Left : Option (SniffTcp × List ContiguousBlock) → Type 0
  Left none = ⊥
  Left (some (s, bs)) = All Quiet bs

  grep_blocks-Left :
      (s : SniffTcp) (bs : List ContiguousBlock)
      → Fits bs
      → Returns Left (grep_blocks object_bytes s bs)
  unfolding grep_blocks
  grep_blocks-Left s [] h = tt
  grep_blocks-Left s (b ∷ bs) h =
      >>=-Returns Stopped Left (grep_block object_bytes (suc (length b.contiguous_block)) s [] b) _
        (grep_block-Stopped (suc (length b.contiguous_block)) s [] b (omega arith) (h.0) tt)
        (block_done (λ s'. grep_blocks-Left s' bs (h.1)))
    where
      kept :
          (s' : SniffTcp) (before ts : List ContiguousBlock) (b' : ContiguousBlock) (gone : Bool)
          → All Quiet before
          → Quiet b'
          → All Quiet ts
          → All Quiet (before ++ (if gone then ts else b' ∷ ts))
      kept s' before ts b' true g q t = All-append before ts g t
      kept s' before ts b' false g q t = All-append before (b' ∷ ts) g (q, t)

      blocks_done :
          (s' : SniffTcp) (before : List ContiguousBlock) (b' : ContiguousBlock)
          → All Quiet before
          → Quiet b'
          → (o : Option (SniffTcp × List ContiguousBlock)) → Left o
          → Returns Left (elim o [
            | none ↦ some none
            | some t ↦ some (
                some (
                  t.0,
                  before
                      ++ (if b'.starting_seq_number == b'.next_expected_seq_number
                          then t.1
                          else b' ∷ (t.1)),
                ))
          ])
      blocks_done s' before b' g q none l = absurd l
      blocks_done s' before b' g q (some (t, ts)) l =
          kept s' before ts b' (b'.starting_seq_number == b'.next_expected_seq_number) g q l

      block_done :
          ((s' : SniffTcp) → Returns Left (grep_blocks object_bytes s' bs))
          → (o : Option Searched) → Stopped o
          → Returns Left (elim o [
            | none ↦ some none
            | some r ↦ do
              rest ← grep_blocks object_bytes (r.0) bs
              elim rest [
                | none ↦ some none
                | some t ↦ some (
                    some (
                      t.0,
                      (r.1)
                          ++ (if (r.2).starting_seq_number == (r.2).next_expected_seq_number
                              then t.1
                              else (r.2) ∷ (t.1)),
                    ))
              ]
          ])
      block_done rest none l = absurd l
      block_done rest (some (s', before, b')) l =
          >>=-Returns Left Left (grep_blocks object_bytes s' bs) _ (rest s')
            (blocks_done s' before b' (l.0) (l.1))

  abbrev LeftEach : Option (SniffTcp × FlowList) → Type 0
  LeftEach none = ⊥
  LeftEach (some (s, flows)) = All (λ f. All Quiet (f.1)) flows

  grep_each-LeftEach :
      (s : SniffTcp) (flows : FlowList)
      → All (λ f. Fits (f.1)) flows
      → Returns LeftEach (grep_each object_bytes s flows)
  unfolding grep_each
  grep_each-LeftEach s [] h = tt
  grep_each-LeftEach s ((fid, bs) ∷ flows) h =
      >>=-Returns Left LeftEach (grep_blocks object_bytes s bs) _ (grep_blocks-Left s bs (h.0))
        (flow_done (λ s'. grep_each-LeftEach s' flows (h.1)))
    where
      flows_done :
          (ts : List ContiguousBlock)
          → All Quiet ts
          → (o : Option (SniffTcp × FlowList)) → LeftEach o
          → Returns LeftEach
              (elim o [ none ↦ some none | some t ↦ some (some (t.0, (fid, ts) ∷ t.1)) ])
      flows_done ts g none l = absurd l
      flows_done ts g (some t) l = (g, l)

      flow_done :
          ((s' : SniffTcp) → Returns LeftEach (grep_each object_bytes s' flows))
          → (o : Option (SniffTcp × List ContiguousBlock)) → Left o
          → Returns LeftEach (elim o [
            | none ↦ some none
            | some r ↦ do
              rest ← grep_each object_bytes (r.0) flows
              elim rest [ none ↦ some none | some t ↦ some (some (t.0, (fid, r.1) ∷ t.1)) ]
          ])
      flow_done rest none l = absurd l
      flow_done rest (some (s', ts)) l =
          >>=-Returns LeftEach LeftEach (grep_each object_bytes s' flows) _ (rest s')
            (flows_done ts l)

-- The search has ended, and no block of a flow is to be searched again.
abbrev pub AllSearched : Option SniffTcp → Type 0
AllSearched none = ⊥
AllSearched (some s) = All (λ f. All Quiet (f.1)) s.flow_list

-- A sniffer whose stored blocks have fewer than 2 ^ 31 - 8 bytes each: unless a search reads
-- outside its memory, grep_flows_for_chunks ends, with one search more than a block has bytes at
-- most, and no block of any flow is to be searched again.
pub grep_flows_for_chunks-AllSearched :
    (object_bytes : ContiguousBlock → List ℕ) (s : SniffTcp)
    → All (λ f. Fits (f.1)) s.flow_list
    → Returns AllSearched (grep_flows_for_chunks object_bytes s)
unfolding grep_flows_for_chunks
grep_flows_for_chunks-AllSearched object_bytes s h =
    >>=-Returns (LeftEach object_bytes) AllSearched (grep_each object_bytes s s.flow_list) _
      (grep_each-LeftEach object_bytes s s.flow_list h) done
  where
    done :
        (o : Option (SniffTcp × FlowList))
        → LeftEach object_bytes o
        → Returns AllSearched
            (elim o [ none ↦ some none | some r ↦ some (some (record (r.0) { flow_list = r.1 })) ])
    done none l = absurd l
    done (some r) l = l
