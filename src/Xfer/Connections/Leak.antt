-- ===== src/Xfer/Connections/Leak.antt =====
-- Replies that are errors leave `refcount` as it is.
use ditto.Prelude.{
  ℕ, zero, suc, ◌+◌, ◌≤◌, ◌<◌, ◌≡◌, refl, ◌∙◌, true, false, Option, some, List, [], ◌∷◌, ◌++◌,
  arith, ◌>>=◌, >>=_step, elim_some,
}
use ditto.Prelude.Bytes.{Bytes, find}
use ditto.Xfer.Messages.{ErrMsg, GetChunkRes}
use ditto.Xfer.Chunk.{get_chunk_internal_cb}
use ditto.Xfer.Connections.{
  ℤ, inc, reaches, max_rpcs_in_flight, ConnEntry, Client, deref, set_at, erase_call, set_conn,
  get_chunk_int, get_chunk, settle, replied,
}

pub deref-set_at :
    (cs : List (Option ConnEntry)) (p : ℕ) (c d : ConnEntry)
    → deref cs p ≡ some c
    → deref (set_at p (some d) cs) p ≡ some d
unfolding deref set_at
deref-set_at [] p c d h = absurd cc
deref-set_at (x ∷ cs) zero c d h = refl
deref-set_at (x ∷ cs) (suc p) c d h = deref-set_at cs p c d h

-- The hop has connection `p`, which counts `r` calls; no call is outstanding.
abbrev pub Idle : Bytes → ℕ → ℕ → Client → Type 0
Idle key p r s =
    (find key s.conn_cache ≡ some p)
    × (s.calls ≡ [])
    × (c : ConnEntry) × (deref s.conns p ≡ some c)
    × (c.refcount ≡ ℤ.pos r)

-- A request on a connection that has room.
pub get_chunk-starts :
    (next_hop : Bytes → Bytes) (s : Client) (id : Bytes) (p : ℕ) (c : ConnEntry)
    → find (next_hop id) s.conn_cache ≡ some p
    → deref s.conns p ≡ some c
    → reaches max_rpcs_in_flight c.refcount ≡ false
    → get_chunk next_hop s id
      ≡ some (record s {
        conns = set_at p (some (record c { refcount = inc c.refcount; tv = s.now })) s.conns;
        calls = s.calls ++ (record { conn = p; chunk = id; dat = [] } ∷ []);
      })
unfolding get_chunk get_chunk_int
get_chunk-starts next_hop s id p c cached live w =
    let d : ConnEntry = record c { refcount = inc c.refcount; tv = s.now } in
    elim_some (find (next_hop id) s.conn_cache) _ _ p cached
      (>>=_step (deref s.conns p) _ c live (rw (w, deref-set_at s.conns p c d live) refl))

module _ (next_hop compute_chunk_id : Bytes → Bytes) where
  -- `n` requests for a chunk, each with a reply that is an error.
  pub failed_requests : ℕ → Client → Bytes → ErrMsg → Option Client
  failed_requests zero s id m = some s
  failed_requests (suc n) s id m = do
    s1 ← get_chunk next_hop s id
    s2 ← replied next_hop compute_chunk_id s1 0 (some (GetChunkRes.errmsg m))
    failed_requests n s2 id m

  one_failure :
      (s : Client) (id : Bytes) (m : ErrMsg) (p r : ℕ)
      → Idle (next_hop id) p r s
      → r < max_rpcs_in_flight
      → (s' : Client) × ((n : ℕ) → failed_requests (suc n) s id m ≡ failed_requests n s' id m)
        × Idle (next_hop id) p (r + 1) s'
  unfolding failed_requests replied get_chunk_internal_cb settle erase_call reaches inc
  one_failure s id m p r (cached, idle, c, live, count) l =
      let d : ConnEntry = record c { refcount = inc c.refcount; tv = s.now } in
      let conns' : List (Option ConnEntry) = set_at p (some d) s.conns in
      let w : reaches max_rpcs_in_flight c.refcount ≡ false = rw count (ground arith) in
      let started : get_chunk next_hop s id
          ≡ some (record s {
            conns = conns';
            calls = record { conn = p; chunk = id; dat = [] } ∷ [];
          }) =
        get_chunk-starts next_hop s id p c cached live w ∙ rw idle refl in
      (
        record s { conns = conns'; calls = []; answers = (id, false) ∷ s.answers },
        (λ n. >>=_step (get_chunk next_hop s id) _ _ started refl),
        (cached, refl, d, deref-set_at s.conns p c d live, rw count refl),
      )

  leaked :
      (n : ℕ) (s : Client) (id : Bytes) (m : ErrMsg) (p r : ℕ)
      → Idle (next_hop id) p r s
      → r + n ≤ max_rpcs_in_flight
      → (s' : Client) × (failed_requests n s id m ≡ some s') × Idle (next_hop id) p (r + n) s'
  unfolding failed_requests
  leaked zero s id m p r h l = let e : r + 0 ≡ r = omega arith in (s, refl, rw e h)
  leaked (suc n) s id m p r h l =
      let (s1, step, g) = one_failure s id m p r h (omega arith) in
      let (s2, run, k) = leaked n s1 id m p (r + 1) g (omega arith) in
      let e : r + suc n ≡ r + 1 + n = omega arith in (s2, step n ∙ run, rw e k)

-- A hop whose connection counts r calls while none is outstanding: after as many requests as are
-- missing to MAX_RPCS_IN_FLIGHT, each with an error in reply, no call is outstanding, and a later
-- request for any chunk of the hop neither starts a call nor calls a callback.
pub leaked-stuck :
    (next_hop compute_chunk_id : Bytes → Bytes) (s : Client) (id later : Bytes) (m : ErrMsg)
    (p r n : ℕ)
    → next_hop later ≡ next_hop id
    → Idle (next_hop id) p r s
    → r + n ≡ max_rpcs_in_flight
    → (s' : Client) × (failed_requests next_hop compute_chunk_id n s id m ≡ some s')
      × (s'.calls ≡ [])
      × (s'' : Client) × (get_chunk next_hop s' later ≡ some s'')
      × (s''.calls ≡ [])
      × (s''.answers ≡ s'.answers)
unfolding get_chunk reaches
leaked-stuck next_hop compute_chunk_id s id later m p r n same h e =
    let (s', run, (cached, idle, c, live, count)) =
      leaked next_hop compute_chunk_id n s id m p r h (omega arith) in
    let (s'', queued, none_started, none_told) =
      waits s' later p (r + n) (rw same cached) idle c live count (omega arith) in
    (s', run, idle, s'', queued, none_started, none_told)
  where
    waits :
        (s' : Client) (later : Bytes) (p k : ℕ)
        → find (next_hop later) s'.conn_cache ≡ some p
        → s'.calls ≡ []
        → (c : ConnEntry) → deref s'.conns p ≡ some c
        → c.refcount ≡ ℤ.pos k
        → max_rpcs_in_flight ≤ k
        → (s'' : Client) × (get_chunk next_hop s' later ≡ some s'')
          × (s''.calls ≡ [])
          × (s''.answers ≡ s'.answers)
    waits s' later p k cached idle c live count l =
        let w : reaches max_rpcs_in_flight c.refcount ≡ true = rw count (ground arith) in
        (
          set_conn s' p (some (record c { wait_cb = c.wait_cb ++ (some later ∷ []) })),
          elim_some (find (next_hop later) s'.conn_cache) _ _ p cached
              (>>=_step (deref s'.conns p) _ c live (rw w refl)),
          idle,
          refl,
        )
