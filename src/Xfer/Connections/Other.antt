-- ===== src/Xfer/Connections/Other.antt =====
-- gtcd/xfer/xferPlugin_gtc.cc: the calls for bitmaps and descriptors on the same connections
-- (`get_bitmap`, `get_bitmap_clnt`, `get_descriptors`, `get_descriptors_clnt`, and what their callbacks
-- do with the connection). `none` is a read through a deleted entry, or an exit.
use ditto.Prelude.{
  ℕ, zero, suc, ◌+◌, ◌≡◌, refl, ap, Bool, true, false, Option, none, some, List, [], ◌∷◌, ◌++◌,
  length, arith, if◌then◌else◌, ◌>>=◌, >>=_step, elim_some,
}
use ditto.Prelude.Bytes.{Bytes, find, put}
use ditto.Xfer.Connections.{
  ℤ, inc, dec, reaches, max_rpcs_in_flight, ConnEntry, Client, deref, set_conn, delete_conn,
}
use ditto.Xfer.Connections.Leak.{deref-set_at}

pub data OtherCall : Type 0 where
  bitmap : OtherCall
  descriptors : OtherCall

-- What the request came to: a connection attempt, or a call on a connection.
pub data Asked : Type 0 where
  tcpconnect : Asked
  called : ℕ → Asked

unfoldable pub limited : OtherCall → Bool
limited OtherCall.bitmap = true
limited OtherCall.descriptors = false

-- `get_bitmap` and `get_descriptors`: only the first looks at the number of calls, and exits.
unfoldable pub get_other : OtherCall → Client → Bytes → Option (Client × Asked)
get_other k s key = elim (find key s.conn_cache) [
  | none ↦ some (s, Asked.tcpconnect)
  | some p ↦ do
    c ← deref s.conns p
    let s' = set_conn s p (some (record c { refcount = inc c.refcount; tv = s.now }))
    let go = some (s', Asked.called p)
    if limited k then if reaches max_rpcs_in_flight c.refcount then none else go else go
]

-- `get_bitmap_clnt` and `get_descriptors_clnt`, and whether the callback is told of an error.
unfoldable pub get_other_clnt : Client → Bytes → Bool → Client × Option Asked
get_other_clnt s key false = (s, none)
get_other_clnt s key true = (
  record s {
    conns =
        s.conns ++ (some (record { key = key; refcount = ℤ.pos 1; tv = s.now; wait_cb = [] }) ∷ []);
    conn_cache = put key (length s.conns) s.conn_cache;
  },
  some (Asked.called (length s.conns)),
)

-- The reply: the call failed, an error, a page that is not the last, or the last one.
pub data OtherReply : Type 0 where
  failed : OtherReply
  errmsg : OtherReply
  page : OtherReply
  last : OtherReply

unfoldable pub settle_other : (Bytes → Bytes) → Client → ℕ → OtherReply → Option Client
settle_other next_hop s p OtherReply.failed = delete_conn next_hop s p
settle_other next_hop s p OtherReply.errmsg = some s
settle_other next_hop s p OtherReply.page = do c ← deref s.conns p; some s
settle_other next_hop s p OtherReply.last = do
  c ← deref s.conns p
  some (set_conn s p (some (record c { refcount = dec c.refcount })))

-- `n` requests for descriptors, and `n` last pages.
unfoldable pub request_descriptors : ℕ → Client → Bytes → Option Client
request_descriptors zero s key = some s
request_descriptors (suc n) s key = do
  (s', a) ← get_other OtherCall.descriptors s key
  request_descriptors n s' key

unfoldable pub finish_others : (Bytes → Bytes) → ℕ → Client → ℕ → Option Client
finish_others next_hop zero s p = some s
finish_others next_hop (suc n) s p = do
  s' ← settle_other next_hop s p OtherReply.last
  finish_others next_hop n s' p

-- The connection `p` with the count `n`; the rest of the client is as in `s`.
abbrev pub Counts : Client → Bytes → ℕ → List (Option Bytes) → ℕ → Client → Type 0
Counts s key p waiting n s' =
    (find key s'.conn_cache ≡ some p)
    × (s'.calls ≡ s.calls)
    × (s'.answers ≡ s.answers)
    × (c : ConnEntry) × (deref s'.conns p ≡ some c)
    × (c.refcount ≡ ℤ.pos n)
    × (c.wait_cb ≡ waiting)

requested :
    (n : ℕ) (t s : Client) (key : Bytes) (p r : ℕ) (ws : List (Option Bytes))
    → Counts t key p ws r s
    → (s' : Client) × (request_descriptors n s key ≡ some s') × Counts t key p ws (r + n) s'
unfolding request_descriptors get_other limited inc
requested zero t s key p r ws h = let e : r + 0 ≡ r = omega arith in (s, refl, rw e h)
requested (suc n) t s key p r ws (cached, calls, answers, c, live, count, waits) =
    let d : ConnEntry = record c { refcount = inc c.refcount; tv = s.now } in
    let s1 : Client = set_conn s p (some d) in
    let (s2, runs, g) =
      requested n t s1 key p (r + 1) ws
        (cached, calls, answers, d, deref-set_at s.conns p c d live, ap inc count, waits) in
    let e : r + suc n ≡ r + 1 + n = omega arith in
    (
      s2,
      >>=_step (get_other OtherCall.descriptors s key) _ (s1, Asked.called p)
          (elim_some (find key s.conn_cache) _ _ p cached
            (>>=_step (deref s.conns p) _ c live refl))
          runs,
      rw e g,
    )

finished :
    (next_hop : Bytes → Bytes) (n : ℕ) (t s : Client) (key : Bytes) (p : ℕ)
    (ws : List (Option Bytes))
    → Counts t key p ws n s
    → (s' : Client) × (finish_others next_hop n s p ≡ some s') × Counts t key p ws 0 s'
unfolding finish_others settle_other dec
finished next_hop zero t s key p ws h = (s, refl, h)
finished next_hop (suc n) t s key p ws (cached, calls, answers, c, live, count, waits) =
    let d : ConnEntry = record c { refcount = dec c.refcount } in
    let s1 : Client = set_conn s p (some d) in
    let (s2, runs, g) =
      finished next_hop n t s1 key p ws
        (cached, calls, answers, d, deref-set_at s.conns p c d live, ap dec count, waits) in
    (
      s2,
      >>=_step (settle_other next_hop s p OtherReply.last) _ s1
          (>>=_step (deref s.conns p) _ c live refl) runs,
      g,
    )

-- A hop with a connection that counts r calls, any number n of requests for descriptors of the hop,
-- and then the last pages of r + n such calls: the requests are counted without a limit, and in the
-- end the connection counts none; the requests for chunks that waited for it still wait in their
-- slots, and no call for one was started and no callback told.
pub request_descriptors-finish_others :
    (next_hop : Bytes → Bytes) (n r : ℕ) (s : Client) (key : Bytes) (p : ℕ) (c : ConnEntry)
    → find key s.conn_cache ≡ some p
    → deref s.conns p ≡ some c
    → c.refcount ≡ ℤ.pos r
    → (s1 : Client) × (request_descriptors n s key ≡ some s1)
      × Counts s key p c.wait_cb (r + n) s1
      × (s2 : Client) × (finish_others next_hop (r + n) s1 p ≡ some s2)
      × Counts s key p c.wait_cb 0 s2
request_descriptors-finish_others next_hop n r s key p c cached live count =
    let (s1, runs, g) =
      requested n s s key p r c.wait_cb (cached, refl, refl, c, live, count, refl) in
    let (s2, ends, g2) = finished next_hop (r + n) s s1 key p c.wait_cb g in
    (s1, runs, g, s2, ends, g2)
