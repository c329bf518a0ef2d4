-- ===== src/Xfer/Connections.antt =====
-- gtcd/xfer/xferPlugin_gtc.cc: the connections of the client that asks for chunks. A `conn_entry *`
-- is an index of `conns`, where `none` is one that was deleted; a request is the identifier of its
-- chunk, and the next hop that `get_next_hop` finds for it is a parameter. A step returns `none` where
-- the code reads a null or a deleted entry; `establish_connection` tells that from its exit. `refcount` stays within an `int`.
pub mod Bounded
pub mod Leak
pub mod Waiting
pub mod Other
pub mod Reached
use ditto.Prelude.{
  ℕ, zero, suc, ◌+◌, ◌-◌, Bool, true, false, ◌&&◌, Option, none, some, List, [], ◌∷◌, ◌++◌, length,
  get_elem?, ltb, leb, if◌then◌else◌, ◌>>=◌,
}
use ditto.Prelude.Bytes.{Bytes, bytes_eq, find, put}
use ditto.Xfer.Messages.{GetChunkRes}
use ditto.Xfer.Chunk.{ConnUse, Next, get_chunk_internal_cb}

pub data ℤ : Type 0 where
  pos : ℕ → ℤ
  negsuc : ℕ → ℤ

unfoldable pub inc : ℤ → ℤ
inc (pos n) = pos (n + 1)
inc (negsuc zero) = pos 0
inc (negsuc (suc n)) = negsuc n

pub dec : ℤ → ℤ
dec (pos zero) = negsuc 0
dec (pos (suc n)) = pos n
dec (negsuc n) = negsuc (n + 1)

-- `refcount >= n`.
unfoldable pub reaches : ℕ → ℤ → Bool
reaches n (pos k) = leb n k
reaches n (negsuc k) = false

unfoldable pub is_zero : ℤ → Bool
is_zero (pos zero) = true
is_zero (pos (suc n)) = false
is_zero (negsuc n) = false

abbrev pub max_rpcs_in_flight : ℕ
max_rpcs_in_flight = 50

abbrev pub conn_entry_idle_sec : ℕ
conn_entry_idle_sec = 600

-- `conn_entry`; a slot of `wait_cb` is empty once its request was started.
pub record ConnEntry : Type 0 where
  pub key : Bytes
  pub refcount : ℤ
  pub tv : ℕ
  pub wait_cb : List (Option Bytes)

-- An outstanding GET_CHUNK with the data so far.
pub record Call : Type 0 where
  pub conn : ℕ
  pub chunk : Bytes
  pub dat : Bytes

-- `answers` is what the callbacks of the requests were told, the last one first.
pub record Client : Type 0 where
  pub conns : List (Option ConnEntry)
  pub conn_cache : List (Bytes × ℕ)
  pub pending_conn_cache : List (Bytes × List Bytes)
  pub calls : List Call
  pub answers : List (Bytes × Bool)
  pub now : ℕ

unfoldable pub deref : List (Option ConnEntry) → ℕ → Option ConnEntry
deref [] p = none
deref (c ∷ cs) zero = c
deref (c ∷ cs) (suc p) = deref cs p

unfoldable pub set_at : ℕ → Option ConnEntry → List (Option ConnEntry) → List (Option ConnEntry)
set_at p v [] = []
set_at zero v (c ∷ cs) = v ∷ cs
set_at (suc p) v (c ∷ cs) = c ∷ set_at p v cs

unfoldable pub remove {ℓ} : {V : Type ℓ} → Bytes → List (Bytes × V) → List (Bytes × V)
remove k [] = []
remove k ((j, v) ∷ m) = if bytes_eq j k then m else (j, v) ∷ remove k m

pub erase_call : ℕ → List Call → List Call
erase_call i [] = []
erase_call zero (c ∷ cs) = cs
erase_call (suc i) (c ∷ cs) = c ∷ erase_call i cs

abbrev pub set_conn : Client → ℕ → Option ConnEntry → Client
set_conn s p v = record s { conns = set_at p v s.conns }

abbrev pub answer : Client → Bytes → Bool → Client
answer s id ok = record s { answers = (id, ok) ∷ s.answers }

-- `get_chunk_int`: after an error it goes on to use the connection.
pub get_chunk_int : Client → Bytes → Bytes → Bool → Option ℕ → Option Client
get_chunk_int s id dat failed conn = do
  let s' = if failed then answer s id false else s
  p ← conn
  c ← deref s'.conns p
  some (record s' { calls = s'.calls ++ (record { conn = p; chunk = id; dat = dat } ∷ []) })

unfoldable pub get_connection : Client → Bytes → Bytes → Option Client
get_connection s key id = elim (find key s.conn_cache) [
  | some p ↦ get_chunk_int s id [] false (some p)
  | none ↦ elim (find key s.pending_conn_cache) [
    | some cbs ↦
        some (record s { pending_conn_cache = put key (cbs ++ (id ∷ [])) s.pending_conn_cache })
    | none ↦ some (record s { pending_conn_cache = put key (id ∷ []) s.pending_conn_cache })
  ]
]

-- The loop of `check_outstanding`: the first request that waits, whose slot is emptied.
unfoldable pub first_waiting : List (Option Bytes) → Option (Bytes × List (Option Bytes))
first_waiting [] = none
first_waiting (some id ∷ ws) = some (id, none ∷ ws)
first_waiting (none ∷ ws) = do (id, ws') ← first_waiting ws; some (id, none ∷ ws')

-- What the two ends of a connection attempt do with the requests that wait for it.
pub run_pending : Client → Bool → Option ℕ → List Bytes → Option Client
run_pending s failed conn [] = some s
run_pending s failed conn (id ∷ ids) = do
  s' ← get_chunk_int s id [] failed conn
  run_pending s' failed conn ids

-- What comes of `establish_connection`: the daemon's exit where no attempt is pending, or a run, which
-- is `none` if it uses the null connection.
pub data Established : Type 0 where
  fatal : Established
  ran : Option Client → Established

-- The attempt to connect ends, and `cbs` are the requests that wait for it.
unfoldable pub run_established : Client → Bytes → Bool → List Bytes → Option Client
run_established s key connected cbs = do
  let p = length s.conns
  s' ←
      if connected
      then run_pending
          (record s {
            conns =
                s.conns
                ++ (some (record { key = key; refcount = pos 1; tv = s.now; wait_cb = [] }) ∷ []);
            conn_cache = put key p s.conn_cache;
          })
          false (some p) cbs
      else run_pending s true none cbs
  some (record s' { pending_conn_cache = remove key s'.pending_conn_cache })

pub establish_connection : Client → Bytes → Bool → Established
establish_connection s key connected = elim (find key s.pending_conn_cache) [
  | none ↦ fatal
  | some cbs ↦ ran (run_established s key connected cbs)
]

module _ (next_hop : Bytes → Bytes) where
  unfoldable pub get_chunk : Client → Bytes → Option Client
  get_chunk s id = elim (find (next_hop id) s.conn_cache) [
    | none ↦ get_connection s (next_hop id) id
    | some p ↦ do
      c ← deref s.conns p
      (if reaches max_rpcs_in_flight c.refcount
          then some (set_conn s p (some (record c { wait_cb = c.wait_cb ++ (some id ∷ []) })))
          else get_chunk_int
              (set_conn s p (some (record c { refcount = inc c.refcount; tv = s.now }))) id [] false
              (some p))
  ]

  -- `get_chunks`.
  unfoldable pub get_chunks : Client → List Bytes → Option Client
  get_chunks s [] = some s
  get_chunks s (id ∷ ids) = do s' ← get_chunk s id; get_chunks s' ids

  -- The loop of `~conn_entry` over the requests that wait.
  pub run_waiting : Client → List (Option Bytes) → Option Client
  run_waiting s [] = some s
  run_waiting s (none ∷ ws) = run_waiting s ws
  run_waiting s (some id ∷ ws) = do s' ← get_chunk s id; run_waiting s' ws

  -- `connCache.remove (conn)` and `delete conn`.
  pub delete_conn : Client → ℕ → Option Client
  delete_conn s p = do
    c ← deref s.conns p
    run_waiting (record s { conns = set_at p none s.conns; conn_cache = remove c.key s.conn_cache })
        c.wait_cb

  -- `check_outstanding`.
  pub check_outstanding : Client → ℕ → Option Client
  check_outstanding s p = do
    c ← deref s.conns p
    elim (first_waiting c.wait_cb) [
      | none ↦ some s
      | some (id, ws) ↦ get_chunk (set_conn s p (some (record c { wait_cb = ws }))) id
    ]

  -- `int_reap_conn_entries`.
  pub int_reap_conn_entries : Client → ℕ → Option Client
  int_reap_conn_entries s p = do
    c ← deref s.conns p
    (if is_zero c.refcount && ltb conn_entry_idle_sec (s.now - c.tv)
        then delete_conn s p
        else some s)

  -- What `get_chunk_internal_cb` does with the connection and the callback, for the call `k`.
  pub settle : Client → Call → ConnUse × Next → Option Client
  settle s k (ConnUse.removed, next) = do s' ← delete_conn s k.conn; some (answer s' k.chunk false)
  settle s k (ConnUse.released, next) = do
    c ← deref s.conns k.conn
    check_outstanding
        (answer (set_conn s k.conn (some (record c { refcount = dec c.refcount }))) k.chunk true)
        k.conn
  settle s k (ConnUse.untouched, Next.call_error m) = some (answer s k.chunk false)
  settle s k (ConnUse.untouched, Next.call_data d bytes) = some (answer s k.chunk true)
  settle s k (ConnUse.untouched, Next.get_chunk_int offset dat) =
      get_chunk_int s k.chunk dat false (some k.conn)

  -- The reply to the outstanding call `i`.
  pub replied : (Bytes → Bytes) → Client → ℕ → Option GetChunkRes → Option Client
  replied compute_chunk_id s i res = do
    k ← get_elem? s.calls i
    settle (record s { calls = erase_call i s.calls }) k
        (get_chunk_internal_cb compute_chunk_id k.chunk k.dat res)
