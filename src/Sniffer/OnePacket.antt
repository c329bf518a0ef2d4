-- ===== src/Sniffer/OnePacket.antt =====
-- A response that comes in one packet, from the segment to the call of the plugin.
use ditto.Prelude.{
  ℕ, ◌+◌, ◌-◌, ◌≤◌, ◌<◌, ◌≡◌, ◌^◌, refl, sym, ap, ◌∙◌, true, false, none, some, List, [], ◌∷◌, ◌++◌,
  add32, sub32, ltb, length, All, Bool-cases, inl, inr, drop, >>=_step, elim_none, arith,
}
use ditto.Prelude.Bytes.{Bytes, bytes_eq, find, find-put, find-put_self, put, put_new}
use ditto.Chunk.{ReconstructedChunk, new_chunk}
use ditto.Wire.{get_chunk_id, get_length_from_byte_stream}
use ditto.Wire.Response.{response, response-append, mark_length}
use ditto.Wire.ChunkId.{get_chunk_id-response}
use ditto.FlowId.{FlowId, to_string}
use ditto.Flows.{blocks_at}
use ditto.Sniffer.{
  SniffTcp, set_chunk, insert, store_filled, fill_gaps_in_chunk, fill_and_report, report,
}
use ditto.Sniffer.Dispatch.{
  fits, deal_with_candidates_for_chunk, add_to_chunk, set_infos, new_flow, handle_segment,
}
use ditto.Sniffer.Report.{report-response, put_chunk}
use ditto.Sniffer.Whole.{
  fresh, filled, cut, filled_data, state_fill, no_candidates, stored_alone, not_inside,
}

module _ (len xid hi lo : ℕ) (id bytes : Bytes) (tail rest : List ℕ) (short : len < 2 ^ 24)
    (long : 1048 ≤ len) (id_size : length id ≡ 20) (data_size : 1024 ≤ length bytes)
    (data_fits : length bytes < 2 ^ 32)
    (whole_size : length (response len xid hi lo id bytes tail) ≡ len) (fid : FlowId) (seq_num : ℕ)
    (small : len + length rest < 2 ^ 31) (no_wrap : seq_num + (len + length rest) < 2 ^ 32) where
  abbrev whole : List ℕ
  whole = response len xid hi lo id bytes tail

  abbrev size : ℕ
  size = length whole + length rest

  one_response : whole ++ rest ≡ response len xid hi lo id bytes (tail ++ rest)
  one_response = response-append len xid hi lo id bytes tail rest

  identified : get_chunk_id (whole ++ rest) size ≡ some (some (id, 0))
  identified = rw one_response (
      get_chunk_id-response [] len xid hi lo id bytes (tail ++ rest) short long id_size data_size
        data_fits size tt (omega (arith, whole_size)))

  measured : get_length_from_byte_stream (whole ++ rest) ≡ some (length whole)
  measured =
      rw one_response
        (mark_length len xid hi lo id bytes (tail ++ rest) short long id_size data_size data_fits)
      ∙ ap some (sym whole_size)

  abbrev first : ReconstructedChunk
  first = fresh id (to_string fid) whole rest seq_num

  abbrev kept : SniffTcp → SniffTcp
  kept s = cut id (to_string fid) whole rest seq_num s fid

  abbrev after : SniffTcp → SniffTcp
  after s =
      (store_filled (kept s) id
        (filled id (to_string fid) whole rest seq_num (kept s).num_duplicate_bytes)).0

  reported :
      (s : SniffTcp)
      → find id s.chunks ≡ some first
      → fill_and_report s id fid (whole ++ rest) size seq_num
        ≡ some (put_chunk (after s) bytes, true)
  unfolding fill_and_report store_filled
  reported s known =
      >>=_step (fill_gaps_in_chunk s id fid (whole ++ rest) size seq_num) _ _
        (state_fill id (to_string fid) whole rest seq_num fid refl (omega arith) (omega arith)
          (omega arith) s known)
        (>>=_step (report (after s) id) _ (put_chunk (after s) bytes)
          (report-response (after s) id
            (filled id (to_string fid) whole rest seq_num (kept s).num_duplicate_bytes).chunk len
            xid hi lo id bytes tail short long id_size data_size data_fits
            (find-put_self id _ (kept s).chunks)
            (filled_data id (to_string fid) whole rest seq_num (kept s).num_duplicate_bytes))
          refl)

  -- What is left behind the response starts where the chunk ends.
  none_inside :
      (s : SniffTcp) (offset : ℕ)
      → s.flow_list ≡ []
      → All
          (λ b. fits seq_num (length whole) b.starting_seq_number ≡ false)
          (blocks_at offset (kept s).flow_list)
  unfolding insert blocks_at
  none_inside s offset empty = elim (Bool-cases (ltb 0 (length rest))) [
    | inl more ↦
        rw (more, empty)
          (stored_alone _ fid (drop (length whole) (whole ++ rest)) (length rest)
            (sub32 (add32 seq_num size) (length rest)) offset
            (not_inside seq_num (length whole) size _ _ _ (omega (arith, whole_size))
              (omega (arith, whole_size))))
    | inr nothing ↦ rw (nothing, empty) tt
  ]

  abbrev sent : SniffTcp → SniffTcp
  sent s = put_chunk (after (set_chunk s id first)) bytes

  abbrev full : SniffTcp → ReconstructedChunk
  full s =
      (filled id (to_string fid) whole rest seq_num
        (kept (set_chunk s id first)).num_duplicate_bytes).chunk

  added :
      (s : SniffTcp)
      → find id s.chunks ≡ none
      → s.flow_list ≡ []
      → add_to_chunk s id fid (whole ++ rest) size seq_num
        ≡ some (
            set_chunk
              (sent s)
              id
              (record (full s) { flow_seq_map = put_new (to_string fid) 0 (full s).flow_seq_map }))
  unfolding add_to_chunk store_filled new_chunk
  added s unseen empty = elim_none (find id s.chunks) _ _ unseen (
      >>=_step (get_length_from_byte_stream (whole ++ rest)) _ (length whole) measured (
        >>=_step (fill_and_report (set_chunk s id first) id fid (whole ++ rest) size seq_num) _
          (sent s, true) (reported (set_chunk s id first) (find-put_self id first s.chunks))
          (>>=_step (deal_with_candidates_for_chunk (sent s) id fid) _ _
            (no_candidates (sent s) id fid seq_num (full s) (find-put_self id (full s) _)
              (find-put_self (to_string fid) seq_num [])
              (λ offset found. none_inside (set_chunk s id first) offset empty))
            refl)))

  abbrev named : SniffTcp → SniffTcp
  named s =
      set_infos s fid
        (record { chunk_id = id; s_seq_num = seq_num; chunk_length = length whole } ∷ [])

  stored :
      (s : SniffTcp)
      → find (to_string fid) s.flow_chunk_map ≡ none
      → handle_segment true s fid (whole ++ rest) size seq_num
        ≡ add_to_chunk (named s) id fid (whole ++ rest) size seq_num
  unfolding handle_segment new_flow
  stored s new_one = elim_none (find (to_string fid) s.flow_chunk_map) _ _ new_one (
      >>=_step (get_chunk_id (whole ++ rest) size) _ _ identified (
        >>=_step (get_length_from_byte_stream (whole ++ rest)) _ (length whole) measured
          (rw (unmoved, uncut) refl)))
    where
      unmoved : add32 seq_num 0 ≡ seq_num
      unmoved = omega arith

      uncut : size - 0 ≡ size
      uncut = omega arith

  -- The state behind the step.
  abbrev stepped : SniffTcp → SniffTcp
  stepped s = set_chunk (sent (named s)) id (record (full (named s)) {
    flow_seq_map = put_new (to_string fid) 0 (full (named s)).flow_seq_map;
  })

  step_stepped :
      (s : SniffTcp)
      → find (to_string fid) s.flow_chunk_map ≡ none
      → find id s.chunks ≡ none
      → s.flow_list ≡ []
      → handle_segment true s fid (whole ++ rest) size seq_num ≡ some (stepped s)
  unfolding set_infos
  step_stepped s new_one unseen empty = stored s new_one ∙ added (named s) unseen empty

  -- Other flows and chunks are as before.
  stepped-flow :
      (s : SniffTcp) (flow : Bytes)
      → bytes_eq (to_string fid) flow ≡ false
      → find flow (stepped s).flow_chunk_map ≡ find flow s.flow_chunk_map
  unfolding set_infos store_filled insert
  stepped-flow s flow h = elim (Bool-cases (ltb 0 (length rest))) [
    | inl more ↦ rw more (find-put (to_string fid) flow _ s.flow_chunk_map ∙ rw h refl)
    | inr less ↦ rw less (find-put (to_string fid) flow _ s.flow_chunk_map ∙ rw h refl)
  ]

  stepped-chunk :
      (s : SniffTcp) (cid : Bytes)
      → bytes_eq id cid ≡ false
      → find cid (stepped s).chunks ≡ find cid s.chunks
  unfolding set_infos store_filled insert
  stepped-chunk s cid h = elim (Bool-cases (ltb 0 (length rest))) [
    | inl more ↦ rw more (other _ _ ∙ (other _ _ ∙ other _ s.chunks))
    | inr less ↦ rw less (other _ _ ∙ (other _ _ ∙ other _ s.chunks))
  ]
    where
      other :
          (rc : ReconstructedChunk) (m : List (Bytes × ReconstructedChunk))
          → find cid (put id rc m) ≡ find cid m
      other rc m = find-put id cid rc m ∙ rw h refl

  stepped-sent :
      (s : SniffTcp) → (stepped s).put_chunks ≡ record { dat = bytes; end = true } ∷ s.put_chunks
  unfolding set_infos store_filled insert
  stepped-sent s = elim (Bool-cases (ltb 0 (length rest))) [
    | inl more ↦ rw more refl
    | inr less ↦ rw less refl
  ]

  stepped-list : (s : SniffTcp) → length rest ≡ 0 → (stepped s).flow_list ≡ s.flow_list
  unfolding set_infos store_filled insert
  stepped-list s h = rw h refl

  -- What the plugin is told of the response, that no block is stored if nothing stands behind it, and
  -- that other flows and chunks are as before.
  pub one_packet_step :
      (s : SniffTcp)
      → find (to_string fid) s.flow_chunk_map ≡ none
      → find id s.chunks ≡ none
      → s.flow_list ≡ []
      → (t : SniffTcp) × (handle_segment true s fid (whole ++ rest) size seq_num ≡ some t)
        × (t.put_chunks ≡ record { dat = bytes; end = true } ∷ s.put_chunks)
        × (length rest ≡ 0 → t.flow_list ≡ [])
        × ((flow : Bytes)
            → bytes_eq (to_string fid) flow ≡ false
            → find flow t.flow_chunk_map ≡ find flow s.flow_chunk_map)
        × ((cid : Bytes) → bytes_eq id cid ≡ false → find cid t.chunks ≡ find cid s.chunks)
  one_packet_step s new_one unseen empty = (
    stepped s,
    step_stepped s new_one unseen empty,
    stepped-sent s,
    (λ nothing. stepped-list s nothing ∙ empty),
    stepped-flow s,
    stepped-chunk s,
  )

  -- A packet of less than 2 ^ 31 bytes that starts with a response, with an identifier of 20 bytes,
  -- at least 1024 bytes of data and as many bytes in all as its mark says, 1048 or more and less
  -- than 2 ^ 24; the flow and the chunk have not been seen, no block is stored, and the sequence
  -- numbers do not wrap: the step returns, and the plugin is given the response's data, marked as
  -- the end of the chunk.
  pub one_packet_response :
      (s : SniffTcp)
      → find (to_string fid) s.flow_chunk_map ≡ none
      → find id s.chunks ≡ none
      → s.flow_list ≡ []
      → (t : SniffTcp) × (handle_segment true s fid (whole ++ rest) size seq_num ≡ some t)
        × (t.put_chunks ≡ record { dat = bytes; end = true } ∷ s.put_chunks)
  one_packet_response s new_one unseen empty =
      let (t, runs, told, _, _, _) = one_packet_step s new_one unseen empty in (t, runs, told)
