-- ===== src/Xfer/Connections/Reached.antt =====
-- gtcd/xfer/xferPlugin_gtc.cc: what a client reaches by requests of every kind, and how many calls a
-- connection counts then.
use mathlib.Core.Path.{subst}
use ditto.Prelude.{
  ℕ, zero, suc, ◌+◌, ◌≡◌, refl, Bool, true, false, Option, none, some, List, [], ◌∷◌, All, arith,
  Bool-cases, inl, inr, Returns, >>=-Returns, elim-Returns,
}
use ditto.Prelude.Bytes.{Bytes, find}
use ditto.Xfer.Messages.{GetChunkRes}
use ditto.Xfer.Connections.{
  ℤ, inc, reaches, max_rpcs_in_flight, ConnEntry, Client, deref, get_chunk, Established,
  establish_connection, int_reap_conn_entries, replied,
}
use ditto.Xfer.Connections.Other.{
  OtherCall, Asked, OtherReply, limited, get_other, get_other_clnt, settle_other,
}
use ditto.Xfer.Connections.Bounded.{
  AtMost, Bounded, Keeps, Lives, inc-reaches, dec-reaches, one-reaches, deref-AtMost, set_at-AtMost,
  append-AtMost, get_chunk-Bounded, delete_conn-Bounded, int_reap_conn_entries-Bounded,
  replied-Bounded, establish_connection-Bounded, of_step,
}

-- One request more.
inc_once :
    (n : ℕ) (r : ℤ) → reaches (suc (50 + n)) r ≡ false → reaches (suc (50 + suc n)) (inc r) ≡ false
unfolding reaches inc
inc_once n (ℤ.pos k) h = ground arith
inc_once n (ℤ.negsuc zero) h = ground arith
inc_once n (ℤ.negsuc (suc k)) h = refl

raise_reaches :
    (n : ℕ) (r : ℤ) → reaches (suc (50 + n)) r ≡ false → reaches (suc (50 + suc n)) r ≡ false
unfolding reaches
raise_reaches n (ℤ.pos k) h = ground arith
raise_reaches n (ℤ.negsuc k) h = refl

raise : (n : ℕ) (cs : List (Option ConnEntry)) → All (AtMost n) cs → All (AtMost (suc n)) cs
raise n [] h = tt
raise n (none ∷ cs) h = (tt, raise n cs (h.1))
raise n (some c ∷ cs) h = (raise_reaches n c.refcount (h.0), raise n cs (h.1))

-- The client that a request leaves.
abbrev Leaves : ℕ → Option (Client × Asked) → Type 0
Leaves n r = Returns (λ (x : Client × Asked). Bounded n (x.0)) r

bitmap-Leaves :
    (n : ℕ) (s : Client) (key : Bytes) → Bounded n s → Leaves n (get_other OtherCall.bitmap s key)
unfolding get_other limited
bitmap-Leaves n s key h =
    elim-Returns (λ x. Bounded n (x.0)) (find key s.conn_cache) _ _ h
      (λ p e.
        >>=-Returns (λ c. AtMost n (some c)) (λ x. Bounded n (x.0)) (deref s.conns p) _
          (deref-AtMost n s.conns p h)
          (λ c g. elim (Bool-cases (reaches max_rpcs_in_flight c.refcount)) [
            | inl b ↦ rw b tt
            | inr b ↦ rw b (set_at-AtMost n s.conns p _ (inc-reaches n c.refcount b) h)
          ]))

descriptors-Leaves :
    (n : ℕ) (s : Client) (key : Bytes)
    → Bounded n s
    → Leaves (suc n) (get_other OtherCall.descriptors s key)
unfolding get_other limited
descriptors-Leaves n s key h =
    elim-Returns (λ x. Bounded (suc n) (x.0)) (find key s.conn_cache) _ _ (raise n s.conns h)
      (λ p e.
        >>=-Returns (λ c. AtMost n (some c)) (λ x. Bounded (suc n) (x.0)) (deref s.conns p) _
          (deref-AtMost n s.conns p h)
          (λ c g. set_at-AtMost (suc n) s.conns p _ (inc_once n c.refcount g) (raise n s.conns h)))

clnt-Bounded :
    (n : ℕ) (s : Client) (key : Bytes) (ok : Bool)
    → Bounded n s
    → Bounded n (get_other_clnt s key ok).0
unfolding get_other_clnt
clnt-Bounded n s key false h = h
clnt-Bounded n s key true h = append-AtMost n s.conns _ h (one-reaches n)

settle_other-Bounded :
    (next_hop : Bytes → Bytes) (n : ℕ) (s : Client) (p : ℕ) (r : OtherReply)
    → Bounded n s
    → Keeps n (settle_other next_hop s p r)
unfolding settle_other
settle_other-Bounded next_hop n s p OtherReply.failed h = delete_conn-Bounded n next_hop s p h
settle_other-Bounded next_hop n s p OtherReply.errmsg h = h
settle_other-Bounded next_hop n s p OtherReply.page h =
    >>=-Returns (λ c. AtMost n (some c)) (Bounded n) (deref s.conns p) _
      (deref-AtMost n s.conns p h) (λ c g. h)
settle_other-Bounded next_hop n s p OtherReply.last h =
    >>=-Returns (λ c. AtMost n (some c)) (Bounded n) (deref s.conns p) _
      (deref-AtMost n s.conns p h)
      (λ c g. set_at-AtMost n s.conns p _ (dec-reaches n c.refcount g) h)

of_request :
    (n : ℕ) {s' : Client} {a : Asked} (r : Option (Client × Asked))
    → r ≡ some (s', a)
    → Leaves n r
    → Bounded n s'
of_request n {s'} {a} r e h = subst (Leaves n) e h

-- The steps of the client that count no call above the limit: a request for a chunk or a bitmap, the
-- end of a connection attempt, the reply to a call, a visit of the reaper, and the clock.
module _ (next_hop compute_chunk_id : Bytes → Bytes) where
  pub data Step : Client → Client → Type 0 where
    asked : {s s' : Client} (id : Bytes) → get_chunk next_hop s id ≡ some s' → Step s s'
    connected :
        {s s' : Client} (key : Bytes) (ok : Bool)
        → establish_connection s key ok ≡ Established.ran (some s')
        → Step s s'
    answered :
        {s s' : Client} (i : ℕ) (res : Option GetChunkRes)
        → replied next_hop compute_chunk_id s i res ≡ some s'
        → Step s s'
    asked_bitmap :
        {s s' : Client} (key : Bytes) (a : Asked)
        → get_other OtherCall.bitmap s key ≡ some (s', a)
        → Step s s'
    other_connected : {s : Client} (key : Bytes) (ok : Bool) → Step s (get_other_clnt s key ok).0
    other_answered :
        {s s' : Client} (p : ℕ) (r : OtherReply) → settle_other next_hop s p r ≡ some s' → Step s s'
    reaped : {s s' : Client} (p : ℕ) → int_reap_conn_entries next_hop s p ≡ some s' → Step s s'
    ticked : {s : Client} (t : ℕ) → Step s (record s { now = s.now + t })

  -- With the number of requests for descriptors so far.
  pub data Reachable : ℕ → Client → Type 0 where
    start : Reachable 0 (record {
      conns = [];
      conn_cache = [];
      pending_conn_cache = [];
      calls = [];
      answers = [];
      now = 0;
    })
    then_step : {n : ℕ} {s s' : Client} → Reachable n s → Step s s' → Reachable n s'
    then_descriptors :
        {n : ℕ} {s s' : Client} (key : Bytes) (a : Asked)
        → Reachable n s
        → get_other OtherCall.descriptors s key ≡ some (s', a)
        → Reachable (suc n) s'

  Step-Bounded : (n : ℕ) {s s' : Client} → Step s s' → Bounded n s → Bounded n s'
  Step-Bounded n (asked id e) h = of_step n _ e (get_chunk-Bounded n next_hop _ id h)
  Step-Bounded n (connected key ok e) h =
      subst (Lives n) e (establish_connection-Bounded n _ key ok h)
  Step-Bounded n (answered i res e) h =
      of_step n _ e (replied-Bounded n next_hop compute_chunk_id _ i res h)
  Step-Bounded n (asked_bitmap key a e) h = of_request n _ e (bitmap-Leaves n _ key h)
  Step-Bounded n (other_connected key ok) h = clnt-Bounded n _ key ok h
  Step-Bounded n (other_answered p r e) h = of_step n _ e (settle_other-Bounded next_hop n _ p r h)
  Step-Bounded n (reaped p e) h = of_step n _ e (int_reap_conn_entries-Bounded n next_hop _ p h)
  Step-Bounded n (ticked t) h = h

  -- In every state that a client reaches by requests for chunks, bitmaps and descriptors, ends of
  -- connection attempts of each kind, replies of any kind, visits of the reaper and the passing of
  -- time, n of the steps being requests for descriptors: no live connection has a refcount above
  -- MAX_RPCS_IN_FLIGHT and n, and so none above MAX_RPCS_IN_FLIGHT without such requests.
  pub Reachable-Bounded : (n : ℕ) (s : Client) → Reachable n s → Bounded n s
  Reachable-Bounded n s start = tt
  Reachable-Bounded n s (then_step r st) = Step-Bounded n st (Reachable-Bounded n _ r)
  Reachable-Bounded (suc n) s (then_descriptors key a r e) =
      of_request (suc n) _ e (descriptors-Leaves n _ key (Reachable-Bounded n _ r))
