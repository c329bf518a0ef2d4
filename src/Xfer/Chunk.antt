-- ===== src/Xfer/Chunk.antt =====
-- gtcd/xfer/xferPlugin_gtc.cc, GET_CHUNK: the server's answer for one page, the client's callback,
-- and the two together. `SEND_SIZE`, the digest, the hints' reader and the answers of the storage
-- plugin are parameters; a descriptor is the identifier of its chunk.
pub mod Serve
pub mod Fetch
pub mod Genuine
use ditto.Prelude.{
  ℕ, zero, suc, ◌-◌, ◌+◌, min, Bool, true, false, not, ◌&&◌, Option, some, none, List, [], ◌∷◌,
  ◌++◌, length, take, drop, ltb, leb, ◌==◌, add32, add64, if◌then◌else◌, ◌>>=◌, ◌⊎◌, inl, inr,
}
use ditto.Prelude.Bytes.{Bytes, bytes_eq, find, put}
use ditto.Xfer.Messages.{ErrMsg, GetChunkArg, GetChunkRes, GetChunkResOk}

-- `hint_res`, and what `parse_hint` returns: below 0, 0 or above 0.
pub record Hint : Type 0 where
  pub hostname : Bytes
  pub port : ℕ

pub data HintStatus : Type 0 where
  bad_hint : HintStatus
  other_hint : HintStatus
  gtc_hint : Hint → HintStatus

-- What the storage plugin calls back with.
pub data SpAnswer : Type 0 where
  sp_errmsg : Bytes → SpAnswer
  sp_chunk : Bytes → Bytes → SpAnswer

-- The server's counters: `statCache`, and the chunks and bytes that it served.
pub record Served : Type 0 where
  pub stat_cache : List (Bytes × ℕ)
  pub num_chunks_served : ℕ
  pub num_bytes_of_chunks_served : ℕ

-- How the handler of a request ends: with a reply, or with a request to the next hop.
pub data Answer : Type 0 where
  reply : GetChunkRes → Answer
  get_chunk_from_next_hop : Bytes → List Bytes → Answer

-- The handler's end: the counters, the data that `dres` is left with, and the answer.
pub record Handled : Type 0 where
  pub served : Served
  pub rest : Bytes
  pub answer : Answer

module _ (send_size : ℕ) where
  -- `remote_get_chunk_cb` for a chunk: the page at the offset. `rembytes` takes what is before the
  -- offset off the data themselves.
  pub reply_page : Served → GetChunkArg → Bool → Bytes → Bytes → Handled
  reply_page s arg served_chunk id dat =
      if leb (length dat) arg.offset
      then record {
        served = s;
        rest = dat;
        answer = reply (GetChunkRes.errmsg ErrMsg.invalid_offset);
      }
      else let num_bytes = min (length dat - arg.offset) send_size in
        record {
          served =
              if served_chunk
              then record s {
                num_chunks_served = add32 s.num_chunks_served 1;
                num_bytes_of_chunks_served = add64 s.num_bytes_of_chunks_served num_bytes;
              }
              else s;
          rest = drop arg.offset dat;
          answer = reply (
              GetChunkRes.resok (record {
                offset = arg.offset;
                chunk_id = id;
                chunk_data = take num_bytes (drop arg.offset dat);
                end = not (ltb num_bytes (length dat - arg.offset));
              }));
        }

  pub remote_get_chunk_cb : Served → GetChunkArg → Bool → Bool → SpAnswer → Handled
  remote_get_chunk_cb s arg last_try served_chunk (SpAnswer.sp_errmsg m) = record {
    served = s;
    rest = [];
    answer =
        if last_try
        then reply (GetChunkRes.errmsg (ErrMsg.sp_failed m))
        else get_chunk_from_next_hop arg.desc arg.hints;
  }
  remote_get_chunk_cb s arg last_try served_chunk (SpAnswer.sp_chunk id dat) =
      reply_page s arg served_chunk id dat

  -- `proxy_get_chunk_cb`: the reply, and what is put into the cache on the path.
  pub proxy_get_chunk_cb :
      Served → GetChunkArg → ErrMsg ⊎ Bytes × Bytes → Handled × Option (Bytes × Bytes)
  proxy_get_chunk_cb s arg (inl m) =
      (record { served = s; rest = []; answer = reply (GetChunkRes.errmsg m) }, none)
  proxy_get_chunk_cb s arg (inr (id, dat)) =
      let h = remote_get_chunk_cb s arg true false (SpAnswer.sp_chunk id dat) in
      (h, some (id, h.rest))

-- The chunk's entry in `statCache`, which a first request makes.
pub count_request : Served → Bytes → Served
count_request s id = record s {
  stat_cache = put id (elim (find id s.stat_cache) [ none ↦ 1 | some n ↦ add32 n 1 ]) s.stat_cache;
}

module _ (parse_hint : Bytes → HintStatus) where
  -- `gtc_in_hint_list`: each round of the loop reads the first hint.
  unfoldable pub own_hint : Bytes → ℕ → Bytes → Bool
  own_hint hostname listen_port name = elim (parse_hint name) [
    | HintStatus.bad_hint ↦ false
    | HintStatus.other_hint ↦ false
    | HintStatus.gtc_hint res ↦ bytes_eq hostname res.hostname && res.port == listen_port
  ]

  pub gtc_in_hint_list : Bytes → ℕ → Bytes → ℕ → Bool
  gtc_in_hint_list hostname listen_port first zero = false
  gtc_in_hint_list hostname listen_port first (suc n) =
      let rest = gtc_in_hint_list hostname listen_port first n in
      if own_hint hostname listen_port first then true else rest

  -- `remote_get_chunk`: the counter of the chunk, and whether this is the last try; `none` where the
  -- vector of hints is empty, and where its first one makes the daemon exit.
  pub remote_get_chunk : Bytes → ℕ → Served → GetChunkArg → Option (Served × Bool)
  remote_get_chunk hostname listen_port s arg = do
    first ← elim arg.hints [ [] ↦ none | h ∷ hs ↦ some h ]
    let s' = count_request s arg.desc
    let last_try = gtc_in_hint_list hostname listen_port first (length arg.hints)
    elim (parse_hint first) [
      | HintStatus.bad_hint ↦ none
      | HintStatus.other_hint ↦ some (s', last_try)
      | HintStatus.gtc_hint res ↦ some (s', last_try)
    ]

-- What becomes of the connection: it is left as it is, it is removed and deleted, or its `refcount`
-- falls by one and one request that waits may start.
pub data ConnUse : Type 0 where
  untouched : ConnUse
  removed : ConnUse
  released : ConnUse

-- The client's next step: the callback with an error or with the data, or the next request.
pub data Next : Type 0 where
  call_error : ErrMsg → Next
  call_data : Bytes → Bytes → Next
  get_chunk_int : ℕ → Bytes → Next

-- `get_chunk_internal_cb`, for the data so far; `none` is a call that failed.
module _ (compute_chunk_id : Bytes → Bytes) where
  unfoldable pub get_chunk_internal_cb : Bytes → Bytes → Option GetChunkRes → ConnUse × Next
  get_chunk_internal_cb id dat none = (removed, call_error ErrMsg.rpc_failure)
  get_chunk_internal_cb id dat (some (GetChunkRes.errmsg m)) =
      (untouched, call_error (ErrMsg.returned_error m))
  get_chunk_internal_cb id dat (some (GetChunkRes.resok r)) =
      let dat' = dat ++ r.chunk_data in
      if r.end
      then if not (bytes_eq id (compute_chunk_id dat'))
        then (untouched, call_error ErrMsg.returned_invalid_data)
        else (released, call_data id dat')
      else (untouched, get_chunk_int (length dat') dat')
