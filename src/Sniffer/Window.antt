-- ===== src/Sniffer/Window.antt =====
-- How a packet is cut at the end of its chunk.
use ditto.Prelude.{
  ℕ, ◌+◌, ◌-◌, ◌≤◌, ◌<◌, ◌≡◌, ◌^◌, Succeeds, >>=-Succeeds, elim-Succeeds, if-Succeeds, some, List,
  arith, IsU32, true, ltb,
}
use ditto.Prelude.Bytes.{Bytes, find}
use ditto.Chunk.{ReconstructedChunk}
use ditto.FlowId.{FlowId, to_string}
use ditto.Sniffer.{SniffTcp, past_end, fill_gaps_in_chunk}
use ditto.Sniffer.Dispatch.{fits}

-- A packet that starts inside a chunk of less than 2 ^ 31 bytes, where neither ends at 2 ^ 32 or
-- behind: the part cut off is what lies behind the end of the chunk, and nothing else.
pub past_end_lem :
    (start len seq_num size : ℕ)
    → start ≤ seq_num
    → seq_num < start + len
    → start + len < 2 ^ 32
    → len < 2 ^ 31
    → size < 2 ^ 31
    → seq_num + size < 2 ^ 32
    → past_end start len seq_num size ≡ seq_num + size - (start + len)
unfolding past_end
past_end_lem start len seq_num size h g k l m n = ground arith

-- Also where sequence numbers wrap, a packet that the test of the dispatcher lets into a chunk is
-- never cut by more bytes than it has.
fits-past_end :
    (start len seq_num size : ℕ)
    → IsU32 seq_num
    → IsU32 start
    → len < 2 ^ 31
    → size < 2 ^ 31
    → fits start len seq_num ≡ true
    → past_end start len seq_num size ≤ size
unfolding past_end fits
fits-past_end start len seq_num size h g m k f = ground arith

-- A known chunk, and a packet of which at most all bytes lie behind the end of the chunk: filling
-- the chunk returns.
fill_total :
    (s : SniffTcp) (cid : Bytes) (fid : FlowId) (payload : List ℕ) (size seq_num : ℕ)
    (rc : ReconstructedChunk)
    → find cid s.chunks ≡ some rc
    → ((start : ℕ)
        → find (to_string fid) rc.flow_seq_map ≡ some start
        → past_end start rc.chunk_length seq_num size ≤ size)
    → Succeeds (fill_gaps_in_chunk s cid fid payload size seq_num)
unfolding fill_gaps_in_chunk
fill_total s cid fid payload size seq_num rc e h = >>=-Succeeds (find cid s.chunks) _ rc e (
    elim-Succeeds (find (to_string fid) rc.flow_seq_map) _ _ (λ _. tt)
      (λ start known.
        if-Succeeds (ltb size (past_end start rc.chunk_length seq_num size)) _ _
          (λ over. ground (arith, h start known)) (λ _. tt)))
