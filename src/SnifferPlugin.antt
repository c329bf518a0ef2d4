-- ===== src/SnifferPlugin.antt =====
-- gtcd/sniffer/snifferPlugin_tcp.cc: the daemon's end of the sniffer. The digest is a parameter; the
-- calls of `put_ichunk` of the storage plugin are recorded, the last one first.
pub mod Stored
use ditto.Prelude.{
  ℕ, Bool, true, false, Option, none, some, List, [], ◌∷◌, length, if◌then◌else◌, ◌>>=◌,
}
use ditto.Prelude.Bytes.{Bytes}
use ditto.Sniffer.{PutChunkArg}
use ditto.Config.{Line, strcasecmp_eq, parse_config_sniffer_info}

pub record StoredChunk : Type 0 where
  pub id : Bytes
  pub size : ℕ
  pub dat : Bytes

pub data Reply : Type 0 where
  ok : Reply
  only_full_chunks : Reply
  proc_unavail : Reply
  closed : Reply

-- "tcp".
abbrev tcp_key : Bytes
tcp_key = 116 ∷ 99 ∷ 112 ∷ []

-- The loop of `setup_sniffer_info`: it takes one word, and the socket behind a word `tcp`.
unfoldable pub listen_sock : List Bytes → Option Bytes → Option (Option Bytes)
listen_sock [] sock = some sock
listen_sock (key ∷ []) sock = if strcasecmp_eq key tcp_key then none else some sock
listen_sock (key ∷ path ∷ rest) sock =
    let taken = listen_sock rest (some path) in
    let next = listen_sock (path ∷ rest) sock in if strcasecmp_eq key tcp_key then taken else next

-- `setup_sniffer_info`: `none` is an access to an empty vector, and the daemon's exit.
unfoldable pub setup_sniffer_info : Option (List Line) → Option (Option Bytes)
setup_sniffer_info file = do
  (sockets, errors) ← parse_config_sniffer_info file
  (if errors then none else listen_sock sockets none)

module _ (compute_chunk_id : Bytes → Bytes) where
  pub put_chunk : List StoredChunk → PutChunkArg → List StoredChunk × Reply
  put_chunk stored arg =
      if arg.end
      then (
        record { id = compute_chunk_id arg.dat; size = length arg.dat; dat = arg.dat } ∷ stored,
        Reply.ok,
      )
      else (stored, Reply.only_full_chunks)

  -- A call that comes in: the end of the connection, PUT_CHUNK, or another procedure.
  pub data Incoming : Type 0 where
    end_of_connection : Incoming
    proc_put_chunk : PutChunkArg → Incoming
    other_proc : Incoming

  pub dispatch : List StoredChunk → Incoming → List StoredChunk × Reply
  dispatch stored end_of_connection = (stored, Reply.closed)
  dispatch stored (proc_put_chunk arg) = put_chunk stored arg
  dispatch stored other_proc = (stored, Reply.proc_unavail)
