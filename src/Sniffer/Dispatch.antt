-- ===== src/Sniffer/Dispatch.antt =====
-- src/sniffer/SniffTcp.cc: which chunk a packet belongs to. `deal_with_pkt_without_chunkid`,
-- `deal_with_candidates_for_chunk`, and the part of `handle_ip` behind the TCP header.
use ditto.Prelude.{
  ℕ, zero, suc, ◌+◌, ◌-◌, Bool, false, ◌&&◌, ◌||◌, Option, none, some, List, [], ◌∷◌, ◌++◌, add32,
  sub32, ltb, ◌==◌, drop, length, if◌then◌else◌, ◌>>=◌,
}
use ditto.Prelude.Bytes.{Bytes, bytes_eq, find, put, put_new}
use ditto.Block.{ContiguousBlock}
use ditto.Chunk.{new_chunk}
use ditto.Wire.{get_chunk_id, get_length_from_byte_stream}
use ditto.FlowId.{FlowId, to_string}
use ditto.Flows.{get_flow_offset, blocks_at, set_blocks}
use ditto.Sniffer.{ChunkInfo, SniffTcp, set_chunk, insert, past_end, fill_and_report}

-- The test of both functions: the packet starts behind the start of the chunk and before its end.
unfoldable pub fits : ℕ → ℕ → ℕ → Bool
fits start len seq_num = ltb start seq_num && ltb seq_num (add32 start len)

-- The loop of `deal_with_pkt_without_chunkid` over the chunks of the flow, and what follows it.
unfoldable pub deal_with_infos :
    SniffTcp → FlowId → List ℕ → ℕ → ℕ → List ChunkInfo → Option SniffTcp
deal_with_infos s fid payload size seq_num [] = some (insert s fid payload size seq_num)
deal_with_infos s fid payload size seq_num (ci ∷ cis) =
    let rest = deal_with_infos s fid payload size seq_num cis in
    if fits ci.s_seq_num ci.chunk_length seq_num
    then (do (s1, b_chunk_done) ← fill_and_report s ci.chunk_id fid payload size seq_num; some s1)
    else rest

unfoldable pub deal_with_pkt_without_chunkid : SniffTcp → FlowId → List ℕ → ℕ → ℕ → Option SniffTcp
deal_with_pkt_without_chunkid s fid payload size seq_num =
    elim (find (to_string fid) s.flow_chunk_map) [
      | none ↦ some s
      | some cis ↦ deal_with_infos s fid payload size seq_num cis
    ]

-- Whether `insert_block` leaves the blocks as they are.
unfoldable pub leaves : ℕ → ℕ → List ContiguousBlock → Bool
leaves size seq_num [] = false
leaves size seq_num (b ∷ bs) =
    let rest = leaves size seq_num bs in
    if ltb seq_num b.next_expected_seq_number
    then ltb b.starting_seq_number (add32 seq_num size)
    else if seq_num == b.next_expected_seq_number
    then false
    else rest

pub erase : ℕ → List ContiguousBlock → List ContiguousBlock
erase i [] = []
erase zero (b ∷ bs) = bs
erase (suc i) (b ∷ bs) = b ∷ erase i bs

unfoldable pub erase_at : ℕ → ℕ → SniffTcp → SniffTcp
erase_at offset i s = record s {
  flow_list = set_blocks offset (erase i (blocks_at offset s.flow_list)) s.flow_list;
}

-- `insert` inside `fill_gaps_in_chunk` leaves the list alone that the loop goes over. Otherwise the
-- loop can hold an iterator to a block that `insert` has merged and deleted; the model takes every
-- change for a fault, also one that only adds a block, where the loop goes on.
pub undisturbed : ℕ → ℕ → ContiguousBlock → List ContiguousBlock → Bool
undisturbed start len b bs =
    let size = length b.contiguous_block in
    let diff = past_end start len b.starting_seq_number size in
    diff == 0 || leaves diff (sub32 (add32 b.starting_seq_number size) diff) bs

-- The loop, from the block at index `i` on. A block that fits is erased after it is copied.
unfoldable pub deal_with_blocks :
    SniffTcp → Bytes → FlowId → ℕ → ℕ → ℕ → ℕ → List ContiguousBlock → Option (SniffTcp × Bool)
unfolding erase erase_at undisturbed
deal_with_blocks s cid fid start len offset i [] = some (s, false)
deal_with_blocks s cid fid start len offset i (b ∷ bs) =
    let next = deal_with_blocks s cid fid start len offset (i + 1) bs in
    if fits start len b.starting_seq_number
    then if undisturbed start len b (blocks_at offset s.flow_list)
      then (do
        (s1, b_chunk_done) ←
            fill_and_report s cid fid (b.contiguous_block ++ (0 ∷ [])) (length b.contiguous_block)
              b.starting_seq_number
        (s2, b_done) ← deal_with_blocks (erase_at offset i s1) cid fid start len offset i bs
        some (s2, b_chunk_done || b_done))
      else none
    else next

-- `flow_seq_map[flow]` adds the key with 0 if it is not there.
unfoldable pub deal_with_candidates_for_chunk : SniffTcp → Bytes → FlowId → Option (SniffTcp × Bool)
deal_with_candidates_for_chunk s cid fid = do
  rc ← find cid s.chunks
  let start : ℕ = elim (find (to_string fid) rc.flow_seq_map) [ none ↦ 0 | some n ↦ n ]
  let s1 : SniffTcp =
      set_chunk s cid (record rc { flow_seq_map = put_new (to_string fid) 0 rc.flow_seq_map })
  elim (get_flow_offset fid s.flow_list) [
    | none ↦ some (s1, false)
    | some offset ↦
        deal_with_blocks s1 cid fid start rc.chunk_length offset 0 (blocks_at offset s.flow_list)
  ]

-- What both branches do with a packet that starts with the RPC header of a response.
unfoldable pub add_to_chunk : SniffTcp → Bytes → FlowId → List ℕ → ℕ → ℕ → Option SniffTcp
add_to_chunk s cid fid payload size seq_num = elim (find cid s.chunks) [
  | none ↦ do
    chunk_len ← get_length_from_byte_stream payload
    (s1, b_chunk_done) ←
        fill_and_report
          (set_chunk s cid
            (record (new_chunk cid chunk_len) { flow_seq_map = put (to_string fid) seq_num [] }))
          cid fid payload size seq_num
    (s2, b_chunk_done2) ← deal_with_candidates_for_chunk s1 cid fid
    some s2
  | some rc ↦ do
    (s1, b_chunk_done) ←
        fill_and_report
          (set_chunk s cid
            (record rc { flow_seq_map = put (to_string fid) seq_num rc.flow_seq_map }))
          cid fid payload size seq_num
    some s1
]

-- The search for the chunk in the flow's list, and `push_back` when it is not there.
unfoldable pub push_info : ChunkInfo → List ChunkInfo → List ChunkInfo
push_info c_info [] = c_info ∷ []
push_info c_info (ci ∷ cis) =
    let rest = push_info c_info cis in
    if bytes_eq ci.chunk_id c_info.chunk_id then ci ∷ cis else ci ∷ rest

unfoldable pub set_infos : SniffTcp → FlowId → List ChunkInfo → SniffTcp
set_infos s fid cis = record s { flow_chunk_map = put (to_string fid) cis s.flow_chunk_map }

-- `fc_map_i == flow_chunk_map.end ()`.
unfoldable pub new_flow : SniffTcp → FlowId → List ℕ → ℕ → ℕ → Option SniffTcp
unfolding set_infos
new_flow s fid payload size seq_num = do
  cid_offset_pair ← get_chunk_id payload size
  elim cid_offset_pair [
    | none ↦ some (insert s fid payload size seq_num)
    | some (cid, offset) ↦ do
      c_len ← get_length_from_byte_stream (drop offset payload)
      add_to_chunk
          (set_infos (if ltb 0 offset then insert s fid payload offset seq_num else s) fid (
            record { chunk_id = cid; s_seq_num = add32 seq_num offset; chunk_length = c_len } ∷ []))
          cid fid (drop offset payload) (size - offset) (add32 seq_num offset)
  ]

-- A chunk has been seen on this flow: `cis` are its chunks.
unfoldable pub old_flow : SniffTcp → FlowId → List ChunkInfo → List ℕ → ℕ → ℕ → Option SniffTcp
unfolding set_infos push_info
old_flow s fid cis payload size seq_num = do
  cid_offset_pair ← get_chunk_id payload size
  elim cid_offset_pair [
    | none ↦ deal_with_pkt_without_chunkid s fid payload size seq_num
    | some (cid, offset) ↦ do
      s1 ←
          (if ltb 0 offset
            then deal_with_pkt_without_chunkid s fid payload offset seq_num
            else some s)
      c_len ← get_length_from_byte_stream (drop offset payload)
      add_to_chunk
          (set_infos s1 fid (
            push_info
              (record { chunk_id = cid; s_seq_num = add32 seq_num offset; chunk_length = c_len })
              cis))
          cid fid (drop offset payload) (size - offset) (add32 seq_num offset)
  ]

-- `handle_ip` from the test of `g_multi_chances` on.
unfoldable pub handle_segment : Bool → SniffTcp → FlowId → List ℕ → ℕ → ℕ → Option SniffTcp
handle_segment multi_chances s fid payload size seq_num =
    if multi_chances
    then elim (find (to_string fid) s.flow_chunk_map) [
      | none ↦ new_flow s fid payload size seq_num
      | some cis ↦ old_flow s fid cis payload size seq_num
    ]
    else some (insert s fid payload size seq_num)
