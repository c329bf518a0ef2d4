-- ===== src/Sniffer/Whole.antt =====
-- A response that comes in one packet, from the packet to the call of the plugin.
use ditto.Prelude.{
  ℕ, zero, suc, ◌+◌, ◌-◌, ◌<◌, ◌≡◌, ◌^◌, refl, ap, ◌∙◌, true, false, some, List, [], ◌∷◌, ◌++◌,
  add32, sub32, ltb, length, All, Option-cases, inl, inr, drop, if◌then◌else◌, >>=_step, elim_some,
  elim_none, take-append, arith, IsU32,
}
use ditto.Prelude.Bytes.{Bytes, find, put, find-put_self, put_new}
use ditto.Block.{ContiguousBlock, new_block, append}
use ditto.Chunk.{ReconstructedChunk, Filled, new_chunk, get_data, place, is_complete, fill_from}
use ditto.Chunk
use ditto.FlowId.{FlowId, to_string}
use ditto.Sniffer.{SniffTcp, past_end, set_chunk, insert, store_filled, fill_gaps_in_chunk}
use ditto.Sniffer.Dispatch.{fits, deal_with_blocks, deal_with_candidates_for_chunk}
use ditto.Flows.{FlowList, get_flow_offset, blocks_at}
use ditto.Flows
use ditto.Sniffer.Window.{past_end_lem}

-- A chunk whose flow starts at `seq_num`, and its first packet: `whole` is as long as the chunk.
module _ (cid flow : Bytes) (whole rest : List ℕ) (seq_num : ℕ) where
  abbrev pub fresh : ReconstructedChunk
  fresh = record (new_chunk cid (length whole)) { flow_seq_map = put flow seq_num [] }

  abbrev pub block : ContiguousBlock
  block = append new_block (whole ++ rest) (length whole) 0

  abbrev pub filled : ℕ → Filled
  filled dups = record {
    chunk = record fresh { lcb = block ∷ []; uniquely_contributing_flows = put_new flow 0 [] };
    num_duplicate_bytes = dups;
    b_chunk_done = true;
  }

  block_whole : block.contiguous_block ≡ whole
  unfolding append new_block
  block_whole = take-append (length whole) whole rest refl

  complete : is_complete (length whole) (block ∷ []) ≡ true
  unfolding is_complete
  complete = ground (arith, ap length block_whole)

  from_start : IsU32 seq_num → sub32 seq_num seq_num ≡ 0
  from_start h = omega arith

  first_fill :
      (dups : ℕ)
      → IsU32 seq_num
      → Chunk.fill_gaps_in_chunk fresh flow (whole ++ rest) (length whole) seq_num dups
        ≡ filled dups
  unfolding Chunk.fill_gaps_in_chunk fill_from place new_chunk
  first_fill dups h =
      rw (Chunk.fill_gaps_in_chunk, find-put_self flow seq_num [], from_start h, complete) refl

  pub filled_data : (dups : ℕ) → get_data (filled dups).chunk ≡ some whole
  unfolding get_data
  filled_data dups = ap some block_whole

  -- The state after it: what is behind the chunk is in the blocks of the flow.
  abbrev pub cut : SniffTcp → FlowId → SniffTcp
  cut s fid =
      if ltb 0 (length rest)
      then insert s fid (drop (length whole) (whole ++ rest)) (length rest)
          (sub32 (add32 seq_num (length whole + length rest)) (length rest))
      else s

  module _ (fid : FlowId) (same : to_string fid ≡ flow) (some_bytes : 0 < length whole)
      (small : length whole + length rest < 2 ^ 31)
      (no_wrap : seq_num + (length whole + length rest) < 2 ^ 32) where
    behind : past_end seq_num (length whole) seq_num (length whole + length rest) ≡ length rest
    behind =
        past_end_lem seq_num (length whole) seq_num (length whole + length rest) (omega arith)
          (omega arith) (omega arith) (omega arith) small no_wrap
        ∙ omega arith

    cut_size : length whole + length rest - length rest ≡ length whole
    cut_size = omega arith

    not_over : ltb (length whole + length rest) (length rest) ≡ false
    not_over = ground arith

    pub state_fill :
        (s : SniffTcp)
        → find cid s.chunks ≡ some fresh
        → fill_gaps_in_chunk s cid fid (whole ++ rest) (length whole + length rest) seq_num
          ≡ some (store_filled (cut s fid) cid (filled (cut s fid).num_duplicate_bytes))
    unfolding fill_gaps_in_chunk new_chunk
    state_fill s known = >>=_step (find cid s.chunks) _ fresh known (
        elim_some (find (to_string fid) (put flow seq_num [])) _ _ seq_num
          (rw same (find-put_self flow seq_num []))
          (rw (behind, not_over, cut_size, same)
            (rw (first_fill (cut s fid).num_duplicate_bytes (omega arith)) refl)))

-- Blocks that do not start inside the chunk are left where they are.
untouched :
    (s : SniffTcp) (cid : Bytes) (fid : FlowId) (start len offset i : ℕ) (bs : List ContiguousBlock)
    → All (λ b. fits start len b.starting_seq_number ≡ false) bs
    → deal_with_blocks s cid fid start len offset i bs ≡ some (s, false)
unfolding deal_with_blocks
untouched s cid fid start len offset i [] h = refl
untouched s cid fid start len offset i (b ∷ bs) h =
    rw (h.0) (untouched s cid fid start len offset (i + 1) bs h.1)

pub no_candidates :
    (s : SniffTcp) (cid : Bytes) (fid : FlowId) (start : ℕ) (rc : ReconstructedChunk)
    → find cid s.chunks ≡ some rc
    → find (to_string fid) rc.flow_seq_map ≡ some start
    → ((offset : ℕ)
        → get_flow_offset fid s.flow_list ≡ some offset
        → All
            (λ b. fits start rc.chunk_length b.starting_seq_number ≡ false)
            (blocks_at offset s.flow_list))
    → deal_with_candidates_for_chunk s cid fid
      ≡ some (
        set_chunk s cid (record rc { flow_seq_map = put_new (to_string fid) 0 rc.flow_seq_map }),
        false,
      )
unfolding deal_with_candidates_for_chunk
no_candidates s cid fid start rc known here outside =
    >>=_step (find cid s.chunks) _ rc known (elim (Option-cases (get_flow_offset fid s.flow_list)) [
      | inl other ↦ elim_none (get_flow_offset fid s.flow_list) _ _ other refl
      | inr (offset, found) ↦ elim_some (get_flow_offset fid s.flow_list) _ _ offset found (
          rw here (
            untouched
              (set_chunk s cid
                (record rc { flow_seq_map = put_new (to_string fid) 0 rc.flow_seq_map }))
              cid fid start rc.chunk_length offset 0 (blocks_at offset s.flow_list)
              (outside offset found)))
    ])

-- What holds of the first block that is stored holds of every block of its flow.
pub stored_alone :
    (P : ContiguousBlock → Type 0) (fid : FlowId) (payload : List ℕ) (size seq_num offset : ℕ)
    → P (append new_block payload size seq_num)
    → All P (blocks_at offset (Flows.insert fid payload size seq_num []))
unfolding Flows.insert get_flow_offset blocks_at
stored_alone P fid payload size seq_num zero p = (p, tt)
stored_alone P fid payload size seq_num (suc i) p = tt

pub not_inside :
    (start len size : ℕ) (payload : List ℕ) (n q : ℕ)
    → start + len < 2 ^ 32
    → q ≡ start + len
    → fits start len (append new_block payload n q).starting_seq_number ≡ false
unfolding fits append new_block
not_inside start len size payload n q small e = ground arith
