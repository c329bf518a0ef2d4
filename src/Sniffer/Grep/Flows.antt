-- ===== src/Sniffer/Grep/Flows.antt =====
-- src/sniffer/SniffTcp.cc: `grep_flows_for_chunks`, the loops over the flows, their blocks and the
-- searches of a block. The result `none` inside is a loop that ran out of fuel.
pub mod Progress
pub mod Ends
use ditto.Prelude.{
  ℕ, zero, suc, ◌+◌, Bool, true, false, ◌&&◌, Option, none, some, List, [], ◌∷◌, ◌++◌, ltb, ◌==◌,
  length, if◌then◌else◌, ◌>>=◌,
}
use ditto.Block.{ContiguousBlock}
use ditto.FlowId.{FlowId}
use ditto.Flows.{FlowList}
use ditto.Sniffer.{SniffTcp}
use ditto.Sniffer.Grep.{grep_contiguous_block_for_chunks}

-- The state, the blocks that were put before the block, and the block.
abbrev pub Searched : Type 0
Searched = SniffTcp × List ContiguousBlock × ContiguousBlock

-- The test of the inner loop.
abbrev pub again : ContiguousBlock → Bool
again b = b.b_modified && ltb b.starting_seq_number b.next_expected_seq_number

module _ (object_bytes : ContiguousBlock → List ℕ) where
  -- The inner loop, on fuel.
  pub grep_block : ℕ → SniffTcp → List ContiguousBlock → ContiguousBlock → Option (Option Searched)
  grep_block zero s before b = if again b then some none else some (some (s, before, b))
  grep_block (suc n) s before b = elim (again b) [
    | false ↦ some (some (s, before, b))
    | true ↦ do
      (s', new, b') ← grep_contiguous_block_for_chunks object_bytes s b
      grep_block n s' (before ++ new) b'
  ]

  -- The loop over the blocks of a flow; a block that has nothing left is erased.
  pub grep_blocks :
      SniffTcp → List ContiguousBlock → Option (Option (SniffTcp × List ContiguousBlock))
  grep_blocks s [] = some (some (s, []))
  grep_blocks s (b ∷ bs) = do
    searched ← grep_block (suc (length b.contiguous_block)) s [] b
    elim searched [
      | none ↦ some none
      | some r ↦ do
        rest ← grep_blocks (r.0) bs
        elim rest [
          | none ↦ some none
          | some t ↦ some (
              some (
                t.0,
                (r.1)
                    ++ (if (r.2).starting_seq_number == (r.2).next_expected_seq_number
                        then t.1
                        else (r.2) ∷ (t.1)),
              ))
        ]
    ]

  pub grep_each : SniffTcp → FlowList → Option (Option (SniffTcp × FlowList))
  grep_each s [] = some (some (s, []))
  grep_each s ((fid, bs) ∷ flows) = do
    searched ← grep_blocks s bs
    elim searched [
      | none ↦ some none
      | some r ↦ do
        rest ← grep_each (r.0) flows
        elim rest [ none ↦ some none | some t ↦ some (some (t.0, (fid, r.1) ∷ t.1)) ]
    ]

  pub grep_flows_for_chunks : SniffTcp → Option (Option SniffTcp)
  grep_flows_for_chunks s = do
    searched ← grep_each s s.flow_list
    elim searched [ none ↦ some none | some r ↦ some (some (record (r.0) { flow_list = r.1 })) ]
