-- ===== src/Xfer/Connections/Waiting.antt =====
-- The requests that wait for a connection: behind a full one, and for one that is being made.
use mathlib.Core.Option.{some-injective}
use mathlib.Core.Path.{subst}
use ditto.Prelude.{
  ℕ, zero, suc, ◌+◌, ◌≤◌, ◌≡◌, refl, sym, ◌∙◌, true, false, Option, none, some, List, [], ◌∷◌, ◌++◌,
  arith, >>=_step, case_some, elim_some, elim_none, Option-cases, inl, inr,
}
use ditto.Prelude.Bytes.{Bytes, find, put, find-put_self}
use ditto.Xfer.Chunk.{ConnUse, Next}
use ditto.Xfer.Connections.{
  ℤ, inc, dec, reaches, max_rpcs_in_flight, ConnEntry, Call, Client, deref, set_at, set_conn,
  answer, get_chunk_int, get_connection, get_chunk, first_waiting, check_outstanding, run_pending,
  Established, run_established, establish_connection, settle,
}
use ditto.Xfer.Connections.Leak.{deref-set_at, get_chunk-starts}

set_at-set_at :
    (cs : List (Option ConnEntry)) (p : ℕ) (v w : Option ConnEntry)
    → set_at p w (set_at p v cs) ≡ set_at p w cs
unfolding set_at
set_at-set_at [] p v w = refl
set_at-set_at (x ∷ cs) zero v w = refl
set_at-set_at (x ∷ cs) (suc p) v w = λ i. x ∷ set_at-set_at cs p v w i

-- A finished chunk on a connection that counts from one to MAX_RPCS_IN_FLIGHT calls and has a
-- request waiting for its hop: the chunk is handed over, the first request that waits is started on
-- the connection and its slot emptied, and the count is as before.
pub settle-starts :
    (next_hop : Bytes → Bytes) (s : Client) (k : Call) (bytes : Bytes) (c : ConnEntry) (r : ℕ)
    (w : Bytes) (ws : List (Option Bytes))
    → deref s.conns k.conn ≡ some c
    → c.refcount ≡ ℤ.pos (suc r)
    → suc r ≤ max_rpcs_in_flight
    → first_waiting c.wait_cb ≡ some (w, ws)
    → find (next_hop w) s.conn_cache ≡ some k.conn
    → settle next_hop s k (ConnUse.released, Next.call_data k.chunk bytes)
      ≡ some (record s {
        conns =
            set_at k.conn
              (some (record c { refcount = ℤ.pos (r + 1); tv = s.now; wait_cb = ws }))
              s.conns;
        calls = s.calls ++ (record { conn = k.conn; chunk = w; dat = [] } ∷ []);
        answers = (k.chunk, true) ∷ s.answers;
      })
unfolding settle check_outstanding get_chunk get_chunk_int dec inc reaches
settle-starts next_hop s k bytes c r w ws live count l waits cached =
    let c1 : ConnEntry = record c { refcount = dec c.refcount } in
    let c2 : ConnEntry = record c1 { wait_cb = ws } in
    let start : Client = answer (set_conn s k.conn (some c1)) k.chunk true in
    let live1 : deref (set_at k.conn (some c1) s.conns) k.conn ≡ some c1 =
      deref-set_at s.conns k.conn c c1 live in
    let live2 : deref (set_at k.conn (some c2) (set_at k.conn (some c1) s.conns)) k.conn ≡ some c2 =
      deref-set_at (set_at k.conn (some c1) s.conns) k.conn c1 c2 live1 in
    let w1 : reaches max_rpcs_in_flight (dec c.refcount) ≡ false = rw count (ground arith) in
    >>=_step (deref s.conns k.conn) _ c live (
      >>=_step (deref (set_at k.conn (some c1) s.conns) k.conn) _ c1 live1 (
        rw waits (
          get_chunk-starts next_hop (set_conn start k.conn (some c2)) w k.conn c2 cached live2 w1
          ∙ rw
              (
                set_at-set_at (set_at k.conn (some c1) s.conns) k.conn (some c2)
                    (some (record c2 { refcount = inc (dec c.refcount); tv = s.now })),
                set_at-set_at s.conns k.conn (some c1)
                    (some (record c2 { refcount = inc (dec c.refcount); tv = s.now })),
                count,
              )
              refl)))

-- No request waits for a connection that was refused without a fault.
run_pending-none :
    (s : Client) (cbs : List Bytes) (id : Bytes) → run_pending s true none (cbs ++ (id ∷ [])) ≡ none
unfolding run_pending get_chunk_int
run_pending-none s [] id = refl
run_pending-none s (x ∷ cbs) id = refl

refused :
    (s : Client) (key : Bytes) (cbs : List Bytes) (id : Bytes)
    → establish_connection
        (record s { pending_conn_cache = put key (cbs ++ (id ∷ [])) s.pending_conn_cache })
        key
        false
      ≡ Established.ran none
unfolding establish_connection run_established
refused s key cbs id =
    let s' : Client = record s {
      pending_conn_cache = put key (cbs ++ (id ∷ [])) s.pending_conn_cache;
    } in
    case_some (find key s'.pending_conn_cache) _ _ (cbs ++ (id ∷ []))
      (find-put_self key (cbs ++ (id ∷ [])) s.pending_conn_cache)
    ∙ rw (run_pending-none s' cbs id) refl

-- A request for a hop without a connection joins those that wait for one.
joins :
    (next_hop : Bytes → Bytes) (s : Client) (id : Bytes)
    → find (next_hop id) s.conn_cache ≡ none
    → (cbs : List Bytes) × (get_chunk next_hop s id
        ≡ some (record s {
          pending_conn_cache = put (next_hop id) (cbs ++ (id ∷ [])) s.pending_conn_cache;
        }))
unfolding get_chunk get_connection
joins next_hop s id h = elim (Option-cases (find (next_hop id) s.pending_conn_cache)) [
  | inl a ↦ (
    [],
    elim_none (find (next_hop id) s.conn_cache) _ _ h (
        elim_none (find (next_hop id) s.conn_cache) _ _ h
          (elim_none (find (next_hop id) s.pending_conn_cache) _ _ a refl)),
  )
  | inr (cbs, a) ↦ (
    cbs,
    elim_none (find (next_hop id) s.conn_cache) _ _ h (
        elim_none (find (next_hop id) s.conn_cache) _ _ h
          (elim_some (find (next_hop id) s.pending_conn_cache) _ _ cbs a refl)),
  )
]

-- A request for a hop that has no connection, and the attempt to connect then fails: the daemon
-- does not exit, as the request is recorded for the attempt, and calling back the requests that
-- wait uses the null connection.
pub refused_connection :
    (next_hop : Bytes → Bytes) (s s' : Client) (id : Bytes)
    → find (next_hop id) s.conn_cache ≡ none
    → get_chunk next_hop s id ≡ some s'
    → establish_connection s' (next_hop id) false ≡ Established.ran none
refused_connection next_hop s s' id h e =
    let (cbs, g) = joins next_hop s id h in
    subst (λ (t : Client). establish_connection t (next_hop id) false ≡ Established.ran none)
      (some-injective _ _ (sym g ∙ e)) (refused s (next_hop id) cbs id)
