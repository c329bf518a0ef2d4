-- ===== src/Flows.antt =====
-- src/sniffer/SniffTcp.cc: `p_flow_list`, for each flow the blocks of its stream that no chunk has
-- taken, with `get_flow_offset` and `insert`. The pointers are never null: they come from `new`.
pub mod Order
use ditto.Prelude.{
  ℕ, zero, suc, ◌+◌, Bool, true, false, Option, none, some, List, [], ◌∷◌, ◌++◌, add32, ltb, ◌==◌,
  if◌then◌else◌,
}
use ditto.Block.{ContiguousBlock, new_block, append, append_string, prepend}
use ditto.FlowId.{FlowId}
use ditto.FlowId

abbrev pub FlowList : Type 0
FlowList = List (FlowId × List ContiguousBlock)

-- `i` is the index of the first flow of the list.
flow_offset_from : FlowId → ℕ → FlowList → Option ℕ
flow_offset_from fid i [] = none
flow_offset_from fid i ((f, bs) ∷ fs) =
    let rest = flow_offset_from fid (i + 1) fs in if FlowId.equal f fid then some i else rest

-- `get_flow_offset`; `none` is -1.
unfoldable pub get_flow_offset : FlowId → FlowList → Option ℕ
unfolding flow_offset_from
get_flow_offset fid fs = flow_offset_from fid 0 fs

-- The block behind is merged only if it starts exactly where `b` now ends.
merge_next : ContiguousBlock → List ContiguousBlock → List ContiguousBlock
merge_next b [] = b ∷ []
merge_next b (c ∷ cs) =
    if b.next_expected_seq_number == c.starting_seq_number
    then append_string b c.contiguous_block c.next_expected_seq_number ∷ cs
    else b ∷ c ∷ cs

-- The branch of `insert` for a flow of the list: the loop over its blocks.
pub insert_block : List ℕ → ℕ → ℕ → List ContiguousBlock → List ContiguousBlock
unfolding merge_next
insert_block payload size seq_num [] = append new_block payload size seq_num ∷ []
insert_block payload size seq_num (b ∷ bs) =
    let rest = insert_block payload size seq_num bs in
    if ltb seq_num b.next_expected_seq_number
    then if add32 seq_num size == b.starting_seq_number
      then prepend b payload size seq_num ∷ bs
      else if ltb (add32 seq_num size) b.starting_seq_number
      then append new_block payload size seq_num ∷ b ∷ bs
      else b ∷ bs
    else if seq_num == b.next_expected_seq_number
    then merge_next (append b payload size (add32 seq_num size)) bs
    else b ∷ rest

-- The blocks of the flow at an index.
unfoldable pub blocks_at : ℕ → FlowList → List ContiguousBlock
blocks_at i [] = []
blocks_at zero ((f, bs) ∷ fs) = bs
blocks_at (suc i) ((f, bs) ∷ fs) = blocks_at i fs

unfoldable pub set_blocks : ℕ → List ContiguousBlock → FlowList → FlowList
set_blocks i bs [] = []
set_blocks zero bs ((f, old) ∷ fs) = (f, bs) ∷ fs
set_blocks (suc i) bs ((f, old) ∷ fs) = (f, old) ∷ set_blocks i bs fs

-- `insert`.
unfoldable pub insert : FlowId → List ℕ → ℕ → ℕ → FlowList → FlowList
insert fid payload size seq_num fs = elim (get_flow_offset fid fs) [
  | some i ↦ set_blocks i (insert_block payload size seq_num (blocks_at i fs)) fs
  | none ↦ fs ++ ((fid, append new_block payload size seq_num ∷ []) ∷ [])
]
