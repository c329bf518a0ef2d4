-- ===== src/Sniffer.antt =====
-- src/sniffer/SniffTcp.{h,cc}: the state of a sniffer, and how a packet goes into a chunk and a
-- finished chunk to the plugin. A step returns `none` where the code reads or writes outside its
-- memory. A `ReconstructedChunk *` is the key of the chunk in `chunks`. Timers and printing are left
-- out, and so is the pause after each chunk that is read from a file.
pub mod Dispatch
pub mod Capture
pub mod Window
pub mod Ignored
pub mod Grep
pub mod Report
pub mod Whole
pub mod OnePacket
use ditto.Prelude.{
  ℕ, ◌+◌, ◌-◌, ◌^◌, Bool, true, false, Option, none, some, List, [], ◌∷◌, ◌++◌, add32, sub32, add64,
  ltb, drop, length, if◌then◌else◌, ◌>>=◌,
}
use ditto.Prelude.Bytes.{Bytes, find, put}
use ditto.Chunk.{ReconstructedChunk, Filled, get_data}
use ditto.Chunk
use ditto.Wire.{DotChunkRes, extract_chunk_response, bytes_at}
use ditto.FlowId.{FlowId, to_string}
use ditto.Flows.{FlowList}
use ditto.Flows

pub record ChunkInfo : Type 0 where
  pub chunk_id : Bytes
  pub s_seq_num : ℕ
  pub chunk_length : ℕ

-- `sniffer_tcp_put_chunk_arg`.
pub record PutChunkArg : Type 0 where
  pub dat : Bytes
  pub end : Bool

-- `put_chunks` is the arguments of the calls of SNIFFER_TCP_PROC_PUT_CHUNK, the last one first.
pub record SniffTcp : Type 0 where
  pub flow_list : FlowList
  pub flow_chunk_map : List (Bytes × List ChunkInfo)
  pub chunks : List (Bytes × ReconstructedChunk)
  pub num_chunks_sniffed : ℕ
  pub num_packets_captured : ℕ
  pub num_tcp_packets_captured : ℕ
  pub num_bytes_of_tcp_packets_captured : ℕ
  pub num_bytes_of_chunks_sniffed : ℕ
  pub num_duplicate_bytes : ℕ
  pub put_chunks : List PutChunkArg

-- `chunkId_reconstructedChunk_map[cid] = rc`.
abbrev pub set_chunk : SniffTcp → Bytes → ReconstructedChunk → SniffTcp
set_chunk s cid rc = record s { chunks = put cid rc s.chunks }

-- `insert`.
pub insert : SniffTcp → FlowId → List ℕ → ℕ → ℕ → SniffTcp
insert s fid payload size seq_num = record s {
  flow_list = Flows.insert fid payload size seq_num s.flow_list;
}

-- `diff` of `fill_gaps_in_chunk`: the bytes of the packet behind the end of the chunk. The
-- difference is an `unsigned int` that the source takes for an `int`.
pub past_end : ℕ → ℕ → ℕ → ℕ → ℕ
past_end start len seq_num size =
    let over = sub32 (add32 seq_num size) (add32 start len) in if ltb over (2 ^ 31) then over else 0

pub store_filled : SniffTcp → Bytes → Filled → SniffTcp × Bool
store_filled s cid f = (
  record s { chunks = put cid f.chunk s.chunks; num_duplicate_bytes = f.num_duplicate_bytes },
  f.b_chunk_done,
)

-- `fill_gaps_in_chunk`: what is behind the end goes to the blocks of the flow. A `diff` above the
-- size of the packet points before it, and is a fault here.
unfoldable pub fill_gaps_in_chunk :
    SniffTcp → Bytes → FlowId → List ℕ → ℕ → ℕ → Option (SniffTcp × Bool)
fill_gaps_in_chunk s cid fid payload size seq_num = do
  rc ← find cid s.chunks
  elim (find (to_string fid) rc.flow_seq_map) [
    | none ↦ some (s, false)
    | some start ↦
        let diff = past_end start rc.chunk_length seq_num size in
        let s' =
          if ltb 0 diff
          then insert s fid (drop (size - diff) payload) diff (sub32 (add32 seq_num size) diff)
          else s in
        if ltb size diff
        then none
        else some (
            store_filled s' cid (
              Chunk.fill_gaps_in_chunk rc (to_string fid) payload (size - diff) seq_num
                s'.num_duplicate_bytes))
  ]

pub send_chunk_to_sniffer_plugin : SniffTcp → List ℕ → Option SniffTcp
send_chunk_to_sniffer_plugin s rpc_buffer = do
  found ← extract_chunk_response rpc_buffer
  elim found [
    | none ↦ some s
    | some res ↦ do
      bytes ← bytes_at rpc_buffer res.chunk_data_base res.chunk_data_len
      some (record s {
        num_chunks_sniffed = add32 s.num_chunks_sniffed 1;
        num_bytes_of_chunks_sniffed = add64 s.num_bytes_of_chunks_sniffed (length bytes);
        put_chunks = record { dat = bytes; end = true } ∷ s.put_chunks;
      })
  ]

-- What each caller does when the chunk is done. `get_data` returns `data ()`, which ends with a
-- zero.
pub report : SniffTcp → Bytes → Option SniffTcp
report s cid = do
  rc ← find cid s.chunks
  bytes ← get_data rc
  send_chunk_to_sniffer_plugin s (bytes ++ (0 ∷ []))

pub fill_and_report : SniffTcp → Bytes → FlowId → List ℕ → ℕ → ℕ → Option (SniffTcp × Bool)
fill_and_report s cid fid payload size seq_num = do
  (s1, b_chunk_done) ← fill_gaps_in_chunk s cid fid payload size seq_num
  (if b_chunk_done then (do s2 ← report s1 cid; some (s2, true)) else some (s1, false))
