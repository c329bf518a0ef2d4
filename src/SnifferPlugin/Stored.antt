-- ===== src/SnifferPlugin/Stored.antt =====
-- Chunks on their way from the segments that the sniffer sees into the store of the daemon.
use mathlib.Core.List.{append-nil}
use ditto.Prelude.{
  ℕ, ◌+◌, ◌≤◌, ◌<◌, ◌≡◌, ◌^◌, refl, sym, ap, ◌∙◌, true, false, Option, none, some, List, [], ◌∷◌,
  ◌++◌, All, length, arith, ◌>>=◌, >>=_step,
}
use ditto.Prelude.Bytes.{Bytes, bytes_eq, find}
use ditto.FlowId.{FlowId, to_string}
use ditto.Wire.Response.{response}
use ditto.Sniffer.{PutChunkArg, SniffTcp}
use ditto.Sniffer.Dispatch.{handle_segment}
use ditto.Sniffer.OnePacket.{one_packet_step}
use ditto.SnifferPlugin.{StoredChunk, Incoming, put_chunk, dispatch}

-- What the daemon has stored after the calls of a sniffer.
pub received : (Bytes → Bytes) → List PutChunkArg → List StoredChunk
received compute_chunk_id [] = []
received compute_chunk_id (arg ∷ earlier) =
    (dispatch compute_chunk_id (received compute_chunk_id earlier) (Incoming.proc_put_chunk arg)).0

-- A segment of a flow that is one response: its length, the identifier and the data, and the fields
-- that are not looked at.
pub record Segment : Type 0 where
  pub fid : FlowId
  pub seq_num : ℕ
  pub len : ℕ
  pub xid : ℕ
  pub hi : ℕ
  pub lo : ℕ
  pub id : Bytes
  pub bytes : Bytes
  pub tail : List ℕ

abbrev pub payload : Segment → List ℕ
payload p = response p.len p.xid p.hi p.lo p.id p.bytes p.tail

-- The sizes that the sniffer accepts, and sequence numbers that do not wrap.
pub record IsWhole (p : Segment) : Type 0 where
  pub short : p.len < 2 ^ 24
  pub long : 1048 ≤ p.len
  pub id_size : length p.id ≡ 20
  pub data_size : 1024 ≤ length p.bytes
  pub data_fits : length p.bytes < 2 ^ 32
  pub whole_size : length (payload p) ≡ p.len
  pub no_wrap : p.seq_num + p.len < 2 ^ 32

-- Neither the flow nor the chunk of the segment is known.
abbrev pub Unseen : SniffTcp → Segment → Type 0
Unseen s p = (find (to_string p.fid) s.flow_chunk_map ≡ none) × (find p.id s.chunks ≡ none)

abbrev pub Apart : Segment → Segment → Type 0
Apart p q = (bytes_eq (to_string p.fid) (to_string q.fid) ≡ false) × (bytes_eq p.id q.id ≡ false)

abbrev pub AllApart : List Segment → Type 0
AllApart [] = Unit
AllApart (p ∷ ps) = All (Apart p) ps × AllApart ps

-- The segments, one after the other.
pub segments : SniffTcp → List Segment → Option SniffTcp
segments s [] = some s
segments s (p ∷ ps) = do
  s' ← handle_segment true s p.fid (payload p) (length (payload p)) p.seq_num
  segments s' ps

-- The chunks of the segments on top of those stored before, each under the digest of its data.
pub with_chunks : (Bytes → Bytes) → List Segment → List StoredChunk → List StoredChunk
with_chunks compute_chunk_id [] stored = stored
with_chunks compute_chunk_id (p ∷ ps) stored =
    with_chunks compute_chunk_id ps
      (record { id = compute_chunk_id p.bytes; size = length p.bytes; dat = p.bytes } ∷ stored)

-- What one segment of the list does.
one_segment :
    (s : SniffTcp) (p : Segment)
    → IsWhole p
    → Unseen s p
    → s.flow_list ≡ []
    → (t : SniffTcp) × (handle_segment true s p.fid (payload p) (length (payload p)) p.seq_num
        ≡ some t)
      × (t.put_chunks ≡ record { dat = p.bytes; end = true } ∷ s.put_chunks)
      × (t.flow_list ≡ [])
      × ((ps : List Segment) → All (Apart p) ps → All (Unseen s) ps → All (Unseen t) ps)
one_segment s p w (new_flow, new_chunk) empty =
    let (t, runs, told, nothing, flows, chunks) =
      one_packet_step p.len p.xid p.hi p.lo p.id p.bytes p.tail [] w.short w.long w.id_size
        w.data_size w.data_fits w.whole_size p.fid p.seq_num (omega (arith, w.short))
        (omega (arith, w.no_wrap)) s new_flow new_chunk empty in
    let e : length (payload p) ≡ length (payload p) + length {A = ℕ} [] = omega arith in
    (
      t,
      ap (λ (x : List ℕ). handle_segment true s p.fid x (length (payload p)) p.seq_num)
            (sym (append-nil (payload p)))
          ∙ ap (λ (n : ℕ). handle_segment true s p.fid (payload p ++ []) n p.seq_num) e
          ∙ runs,
      told,
      nothing refl,
      unseen t flows chunks,
    )
  where
    unseen :
        (t : SniffTcp)
        → ((flow : Bytes)
            → bytes_eq (to_string p.fid) flow ≡ false
            → find flow t.flow_chunk_map ≡ find flow s.flow_chunk_map)
        → ((cid : Bytes) → bytes_eq p.id cid ≡ false → find cid t.chunks ≡ find cid s.chunks)
        → (ps : List Segment) → All (Apart p) ps
        → All (Unseen s) ps
        → All (Unseen t) ps
    unseen t flows chunks [] a u = tt
    unseen t flows chunks (q ∷ qs) ((g, d), a) ((f, c), u) =
        ((flows (to_string q.fid) g ∙ f, chunks q.id d ∙ c), unseen t flows chunks qs a u)

-- Any number of segments, each of them one whole response with the sizes as for one packet, their
-- flows and chunks all different and not known before, while no block is stored: the sniffer
-- handles them all, and the daemon that receives the sniffer's calls has then stored, on top of
-- what it had, for each segment in order exactly the response's data under their digest.
pub segments-received :
    (compute_chunk_id : Bytes → Bytes) (s : SniffTcp) (ps : List Segment)
    → All IsWhole ps
    → AllApart ps
    → All (Unseen s) ps
    → s.flow_list ≡ []
    → (t : SniffTcp) × (segments s ps ≡ some t)
      × (received compute_chunk_id t.put_chunks
          ≡ with_chunks compute_chunk_id ps (received compute_chunk_id s.put_chunks))
unfolding segments with_chunks received dispatch put_chunk
segments-received compute_chunk_id s [] w a u empty = (s, refl, refl)
segments-received compute_chunk_id s (p ∷ ps) (w, ws) (a, apart) (u, us) empty =
    let (s', here, told, still_empty, unseen) = one_segment s p w u empty in
    let (t, runs, all) =
      segments-received compute_chunk_id s' ps ws apart (unseen ps a us) still_empty in
    (
      t,
      >>=_step (handle_segment true s p.fid (payload p) (length (payload p)) p.seq_num) _ s' here
          runs,
      all
          ∙ ap
              (λ (args : List PutChunkArg).
                with_chunks compute_chunk_id ps (received compute_chunk_id args))
              told,
    )
