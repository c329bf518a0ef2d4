-- ===== src/Gtcd/Run.antt =====
-- One transfer with its surroundings: a client that asks for data again when it has its reply, the
-- storage plugin, which reads a chunk, the timer of `fetch_data`, and the transfer plugin, which
-- reports chunks and errors. The events come in any order; one that cannot happen changes nothing.
use ditto.Prelude.{
  ℕ, zero, suc, Bool, true, false, not, ◌||◌, ◌%◌, ◌^◌, Option, none, some, List, [], ◌∷◌, ◌++◌,
  length, ◌==◌, if◌then◌else◌, ◌>>=◌,
}
use ditto.Prelude.Bytes.{Bytes}
use ditto.Gtcd.{XferMode, DescStatus, Descriptor, XferData, GetDataRes, Out, Outcome, get_chunk_cb}
use ditto.Gtcd.Fetch.{get_data, fetch_data, xp_fetch_data_cb}

-- What the client's request waits for.
pub data Phase : Type 0 where
  idle : Phase
  waiting : Phase
  loading : ℕ → ℕ → Phase
  ended : Phase
  failed : Phase

-- `misplaced`: a reply's offset was not the number of bytes before it, in 32 bits.
pub record System : Type 0 where
  pub xfer : Option XferData
  pub phase : Phase
  pub scheduled : Bool
  pub asked : Bool
  pub received : Bytes
  pub misplaced : Bool

pub data Event : Type 0 where
  asks : ℕ → Event
  timer : (Descriptor → Bool) → Event
  arrival : Option Bytes → Descriptor → Option Bytes → Event
  read : Option Bytes → Event

abbrev pub send : System → Out → System
send s (Out.reply sbp (GetDataRes.errmsg e)) = record s { phase = Phase.failed }
send s (Out.reply sbp (GetDataRes.resok end offset dat)) = record s {
  phase = if end then Phase.ended else Phase.idle;
  received = s.received ++ dat;
  misplaced = s.misplaced || not (offset == length s.received % 2 ^ 32);
}
send s (Out.get_chunk sbp i offset) = record s { phase = Phase.loading sbp i }
send s Out.fetch_data = record s { scheduled = true }
send s (Out.release_ichunk d) = s
send s (Out.inc_chunk_refcount d) = s
send s (Out.put_ichunk d dat) = s
send s (Out.get_chunks ds) = record s { asked = true }

abbrev pub sends : System → List Out → System
sends s [] = s
sends s (o ∷ os) = sends (send s o) os

abbrev pub after : System → Outcome → System
after s (d, outs) = sends (record s { xfer = d }) outs

-- The bytes of the chunk `i`, as the storage plugin has them.
unfoldable pub content : List Bytes → ℕ → Bytes
content [] i = []
content (c ∷ cs) zero = c
content (c ∷ cs) (suc i) = content cs i

module _ (send_size : ℕ) (contents : List Bytes) where
  unfoldable pub ask : System → ℕ → Phase → Option System
  ask s sbp Phase.idle = do
    d ← s.xfer
    r ← get_data send_size sbp d
    some (after (record s { phase = Phase.waiting }) r)
  ask s sbp Phase.waiting = some s
  ask s sbp (Phase.loading b i) = some s
  ask s sbp Phase.ended = some s
  ask s sbp Phase.failed = some s

  unfoldable pub load : System → Option Bytes → Phase → Option System
  load s e (Phase.loading sbp i) = do
    d ← s.xfer
    r ← get_chunk_cb send_size sbp i none e (content contents i) d
    some (after (record s { phase = Phase.waiting }) r)
  load s e Phase.idle = some s
  load s e Phase.waiting = some s
  load s e Phase.ended = some s
  load s e Phase.failed = some s

  unfoldable pub told :
      System → Option Bytes → Descriptor → Option Bytes → Option XferData → Option System
  told s e desc dat none = some s
  told s e desc dat (some d) = do r ← xp_fetch_data_cb send_size e desc dat d; some (after s r)

  unfoldable pub timed_out : System → (Descriptor → Bool) → Option System
  timed_out s has = do
    d ← s.xfer
    r ← fetch_data send_size has d
    some (after (record s { scheduled = false }) r)

  unfoldable pub step : System → Event → Option System
  step s (Event.asks sbp) = ask s sbp s.phase
  step s (Event.timer has) = if s.scheduled then timed_out s has else some s
  step s (Event.arrival e desc dat) = if s.asked then told s e desc dat s.xfer else some s
  step s (Event.read e) = load s e s.phase

  unfoldable pub run : System → List Event → Option System
  run s [] = some s
  run s (e ∷ es) = do s' ← step s e; run s' es

-- What `get_init_cb` leaves in the table for the descriptors: no chunk is known to be there.
unfoldable pub unknowns : List Descriptor → List DescStatus
unknowns [] = []
unknowns (d ∷ ds) = DescStatus.unknown ∷ unknowns ds

unfoldable pub started : XferMode → List Descriptor → System
started xmode descs = record {
  xfer = some (record {
    xmode = xmode;
    descs = some descs;
    descs_status = some (unknowns descs);
    descs_count = 0;
    descs_xfered = 0;
    buf = [];
    buf_offset = 0;
    fetching = false;
    xcb = none;
    err = none;
    hints = some [];
    sid = 0;
  });
  phase = Phase.idle;
  scheduled = false;
  asked = false;
  received = [];
  misplaced = false;
}
