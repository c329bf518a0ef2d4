-- ===== src/Xfer/Connections/Bounded.antt =====
-- The steps of a chunk request keep a limit on the calls that one connection counts.
use mathlib.Core.Option.{some-injective}
use mathlib.Core.Path.{subst}
use ditto.Prelude.{
  ℕ, zero, suc, ◌+◌, ◌-◌, ◌≡◌, refl, Bool, true, false, ◌&&◌, Option, none, some, List, [], ◌∷◌,
  ◌++◌, All, length, get_elem?, arith, ltb, Bool-cases, Option-cases, case_some, case_none, sym,
  inl, inr, Returns, >>=-Returns, Returns-any, if-Returns, elim-Returns, ◌>>=◌,
}
use ditto.Prelude.Bytes.{Bytes, find}
use ditto.Xfer.Messages.{GetChunkRes}
use ditto.Xfer.Chunk.{ConnUse, Next, get_chunk_internal_cb}
use ditto.Xfer.Connections.{
  ℤ, inc, dec, reaches, is_zero, max_rpcs_in_flight, conn_entry_idle_sec, ConnEntry, Call, Client,
  deref, set_at, answer, get_chunk_int, get_connection, get_chunk, run_waiting, delete_conn,
  first_waiting, check_outstanding, run_pending, Established, run_established, establish_connection,
  int_reap_conn_entries, settle, replied,
}

-- No live connection counts more than `MAX_RPCS_IN_FLIGHT` and `n` calls.
abbrev pub AtMost : ℕ → Option ConnEntry → Type 0
AtMost n none = Unit
AtMost n (some c) = reaches (suc (max_rpcs_in_flight + n)) c.refcount ≡ false

abbrev pub Bounded : ℕ → Client → Type 0
Bounded n s = All (AtMost n) s.conns

-- The new client of a step.
abbrev pub Keeps : ℕ → Option Client → Type 0
Keeps n r = Returns (Bounded n) r

pub inc-reaches : (n : ℕ) (r : ℤ) → reaches 50 r ≡ false → reaches (suc (50 + n)) (inc r) ≡ false
unfolding reaches inc
inc-reaches n (ℤ.pos k) h = ground arith
inc-reaches n (ℤ.negsuc zero) h = ground arith
inc-reaches n (ℤ.negsuc (suc k)) h = refl

pub dec-reaches :
    (n : ℕ) (r : ℤ) → reaches (suc (50 + n)) r ≡ false → reaches (suc (50 + n)) (dec r) ≡ false
unfolding reaches dec
dec-reaches n (ℤ.pos zero) h = refl
dec-reaches n (ℤ.pos (suc k)) h = ground arith
dec-reaches n (ℤ.negsuc k) h = refl

-- A new connection counts one call.
pub one-reaches : (n : ℕ) → reaches (suc (50 + n)) (ℤ.pos 1) ≡ false
unfolding reaches
one-reaches n = ground arith

module _ (n : ℕ) where
  pub deref-AtMost :
      (cs : List (Option ConnEntry)) (p : ℕ)
      → All (AtMost n) cs
      → Returns (λ c. AtMost n (some c)) (deref cs p)
  unfolding deref
  deref-AtMost [] p h = tt
  deref-AtMost (none ∷ cs) zero h = tt
  deref-AtMost (some c ∷ cs) zero h = h.0
  deref-AtMost (c ∷ cs) (suc p) h = deref-AtMost cs p (h.1)

  pub set_at-AtMost :
      (cs : List (Option ConnEntry)) (p : ℕ) (v : Option ConnEntry)
      → AtMost n v
      → All (AtMost n) cs
      → All (AtMost n) (set_at p v cs)
  unfolding set_at
  set_at-AtMost [] p v g h = tt
  set_at-AtMost (c ∷ cs) zero v g h = (g, h.1)
  set_at-AtMost (c ∷ cs) (suc p) v g h = (h.0, set_at-AtMost cs p v g (h.1))

  pub append-AtMost :
      (cs : List (Option ConnEntry)) (c : Option ConnEntry)
      → All (AtMost n) cs
      → AtMost n c
      → All (AtMost n) (cs ++ (c ∷ []))
  append-AtMost [] c h g = (g, tt)
  append-AtMost (d ∷ cs) c h g = (h.0, append-AtMost cs c (h.1) g)

  get_chunk_int-Bounded :
      (s : Client) (id dat : Bytes) (failed : Bool) (conn : Option ℕ)
      → Bounded n s
      → Keeps n (get_chunk_int s id dat failed conn)
  unfolding get_chunk_int
  get_chunk_int-Bounded s id dat failed none h = tt
  get_chunk_int-Bounded s id dat true (some p) h = started (deref s.conns p)
    where
      started :
          (c : Option ConnEntry)
          → Keeps n (
              c >>= (λ c. some (record (answer s id false) {
                calls = s.calls ++ (record { conn = p; chunk = id; dat = dat } ∷ []);
              })))
      started none = tt
      started (some c) = h
  get_chunk_int-Bounded s id dat false (some p) h = started (deref s.conns p)
    where
      started :
          (c : Option ConnEntry)
          → Keeps n (
              c >>= (λ c. some (record s {
                calls = s.calls ++ (record { conn = p; chunk = id; dat = dat } ∷ []);
              })))
      started none = tt
      started (some c) = h

  get_connection-Bounded :
      (s : Client) (key id : Bytes) → Bounded n s → Keeps n (get_connection s key id)
  unfolding get_connection
  get_connection-Bounded s key id h =
      elim-Returns (Bounded n) (find key s.conn_cache) _ _
        (elim-Returns (Bounded n) (find key s.pending_conn_cache) _ _ h (λ cbs e. h))
        (λ p e. get_chunk_int-Bounded s id [] false (some p) h)

  run_pending-Bounded :
      (s : Client) (failed : Bool) (conn : Option ℕ) (ids : List Bytes)
      → Bounded n s
      → Keeps n (run_pending s failed conn ids)
  unfolding run_pending
  run_pending-Bounded s failed conn [] h = h
  run_pending-Bounded s failed conn (id ∷ ids) h =
      >>=-Returns (Bounded n) (Bounded n) (get_chunk_int s id [] failed conn) _
        (get_chunk_int-Bounded s id [] failed conn h)
        (λ s' g. run_pending-Bounded s' failed conn ids g)

  run_established-Bounded :
      (s : Client) (key : Bytes) (connected : Bool) (cbs : List Bytes)
      → Bounded n s
      → Keeps n (run_established s key connected cbs)
  unfolding run_established
  run_established-Bounded s key connected cbs h =
      >>=-Returns (Bounded n) (Bounded n) _ _
        (if-Returns (Bounded n) connected _ _
          (run_pending-Bounded _ false (some (length s.conns)) cbs
            (append-AtMost s.conns _ h (one-reaches n)))
          (run_pending-Bounded s true none cbs h))
        (λ s' g. g)

  abbrev pub Lives : Established → Type 0
  Lives Established.fatal = Unit
  Lives (Established.ran r) = Keeps n r

  pub establish_connection-Bounded :
      (s : Client) (key : Bytes) (connected : Bool)
      → Bounded n s
      → Lives (establish_connection s key connected)
  unfolding establish_connection
  establish_connection-Bounded s key connected h =
      elim (Option-cases (find key s.pending_conn_cache)) [
        | inl a ↦ subst Lives (sym (case_none (find key s.pending_conn_cache) _ _ a)) tt
        | inr (cbs, a) ↦
            subst Lives (sym (case_some (find key s.pending_conn_cache) _ _ cbs a))
              (run_established-Bounded s key connected cbs h)
      ]

  module _ (next_hop : Bytes → Bytes) where
    pub get_chunk-Bounded :
        (s : Client) (id : Bytes) → Bounded n s → Keeps n (get_chunk next_hop s id)
    unfolding get_chunk
    get_chunk-Bounded s id h =
        elim-Returns (Bounded n) (find (next_hop id) s.conn_cache) _ _
          (get_connection-Bounded s (next_hop id) id h)
          (λ p e.
            >>=-Returns (λ c. AtMost n (some c)) (Bounded n) (deref s.conns p) _
              (deref-AtMost s.conns p h)
              (λ c g. elim (Bool-cases (reaches max_rpcs_in_flight c.refcount)) [
                | inl b ↦ rw b (set_at-AtMost s.conns p _ g h)
                | inr b ↦ rw b (
                    get_chunk_int-Bounded _ id [] false (some p)
                      (set_at-AtMost s.conns p _ (inc-reaches n c.refcount b) h))
              ]))

    run_waiting-Bounded :
        (s : Client) (ws : List (Option Bytes)) → Bounded n s → Keeps n (run_waiting next_hop s ws)
    unfolding run_waiting
    run_waiting-Bounded s [] h = h
    run_waiting-Bounded s (none ∷ ws) h = run_waiting-Bounded s ws h
    run_waiting-Bounded s (some id ∷ ws) h =
        >>=-Returns (Bounded n) (Bounded n) (get_chunk next_hop s id) _ (get_chunk-Bounded s id h)
          (λ s' g. run_waiting-Bounded s' ws g)

    pub delete_conn-Bounded :
        (s : Client) (p : ℕ) → Bounded n s → Keeps n (delete_conn next_hop s p)
    unfolding delete_conn
    delete_conn-Bounded s p h =
        >>=-Returns (λ c. AtMost n (some c)) (Bounded n) (deref s.conns p) _
          (deref-AtMost s.conns p h)
          (λ c g. run_waiting-Bounded _ c.wait_cb (set_at-AtMost s.conns p none tt h))

    check_outstanding-Bounded :
        (s : Client) (p : ℕ) → Bounded n s → Keeps n (check_outstanding next_hop s p)
    unfolding check_outstanding
    check_outstanding-Bounded s p h =
        >>=-Returns (λ c. AtMost n (some c)) (Bounded n) (deref s.conns p) _
          (deref-AtMost s.conns p h)
          (λ c g.
            elim-Returns (Bounded n) (first_waiting c.wait_cb) _ _ h
              (λ w e. get_chunk-Bounded _ (w.0) (set_at-AtMost s.conns p _ g h)))

    pub int_reap_conn_entries-Bounded :
        (s : Client) (p : ℕ) → Bounded n s → Keeps n (int_reap_conn_entries next_hop s p)
    unfolding int_reap_conn_entries
    int_reap_conn_entries-Bounded s p h =
        >>=-Returns (λ c. AtMost n (some c)) (Bounded n) (deref s.conns p) _
          (deref-AtMost s.conns p h)
          (λ c g.
            if-Returns (Bounded n) (is_zero c.refcount && ltb conn_entry_idle_sec (s.now - c.tv)) _
              _ (delete_conn-Bounded s p h) h)

    settle-Bounded :
        (s : Client) (k : Call) (o : ConnUse × Next) → Bounded n s → Keeps n (settle next_hop s k o)
    unfolding settle
    settle-Bounded s k (ConnUse.removed, next) h =
        >>=-Returns (Bounded n) (Bounded n) (delete_conn next_hop s k.conn) _
          (delete_conn-Bounded s k.conn h) (λ s' g. g)
    settle-Bounded s k (ConnUse.released, next) h =
        >>=-Returns (λ c. AtMost n (some c)) (Bounded n) (deref s.conns k.conn) _
          (deref-AtMost s.conns k.conn h)
          (λ c g.
            check_outstanding-Bounded _ k.conn
              (set_at-AtMost s.conns k.conn _ (dec-reaches n c.refcount g) h))
    settle-Bounded s k (ConnUse.untouched, Next.call_error m) h = h
    settle-Bounded s k (ConnUse.untouched, Next.call_data d b) h = h
    settle-Bounded s k (ConnUse.untouched, Next.get_chunk_int offset dat) h =
        get_chunk_int-Bounded s k.chunk dat false (some k.conn) h

    pub replied-Bounded :
        (digest : Bytes → Bytes) (s : Client) (i : ℕ) (res : Option GetChunkRes)
        → Bounded n s
        → Keeps n (replied next_hop digest s i res)
    unfolding replied
    replied-Bounded digest s i res h =
        >>=-Returns (λ k. get_elem? s.calls i ≡ some k) (Bounded n) (get_elem? s.calls i) _
          (Returns-any (get_elem? s.calls i))
          (λ k u. settle-Bounded _ k (get_chunk_internal_cb digest k.chunk k.dat res) h)

  pub of_step : {s' : Client} (r : Option Client) → r ≡ some s' → Keeps n r → Bounded n s'
  of_step none e h = absurd cc
  of_step (some s) e h = subst (Bounded n) (some-injective _ _ e) h
