-- ===== src/Gtcd/PutFd.antt =====
-- gtcd/gtcd.T: an object that is read from a file descriptor (`put_fd`, `put_fd_main`, `put_fd_read`,
-- `put_fd_read_cb`), with the events that drive it in any order.
pub mod Whole
use ditto.Prelude.{
  ℕ, zero, suc, ◌+◌, ◌-◌, ◌≡◌, refl, sym, ap, ◌∙◌, Bool, true, false, ◌&&◌, not, Option, none, some,
  List, [], ◌∷◌, ◌++◌, arith, ltb, ◌==◌, Bool-cases, inl, inr, if◌then◌else◌,
}
use ditto.Prelude.Bytes.{Bytes}

-- `putfd_state`: whether the descriptor is open, and the calls of the chunker that are outstanding.
pub record PutFdState : Type 0 where
  pub fd_open : Bool
  pub pending : ℕ

-- What is done: `fdcb` on and off, `put_object`, `commit_object`, and the reply with an error.
pub data Action : Type 0 where
  watch : Action
  unwatch : Action
  put_object : Bytes → Action
  commit_object : Action
  error_reply : Action

abbrev pub Result : Type 0
Result = PutFdState × List Action

unfoldable pub put_fd_main : PutFdState → List Action
put_fd_main st =
    if st.fd_open
    then Action.watch ∷ []
    else if st.pending == 0
    then Action.commit_object ∷ []
    else []

-- What `input` gives: an error, the end of the file, or bytes.
pub data Input : Type 0 where
  failed : Input
  end : Input
  bytes : Bytes → Input

unfoldable pub put_fd_read : PutFdState → Input → Result
put_fd_read st Input.failed = (st, Action.error_reply ∷ [])
put_fd_read st Input.end =
    let st' = record st { fd_open = false } in (st', Action.unwatch ∷ put_fd_main st')
put_fd_read st (Input.bytes inbuf) =
    (record st { pending = st.pending + 1 }, Action.put_object inbuf ∷ [])

-- The chunker's callback; with an error the call stays counted.
unfoldable pub put_fd_read_cb : PutFdState → Bool → Result
put_fd_read_cb st true = (st, Action.error_reply ∷ [])
put_fd_read_cb st false = let st' = record st { pending = st.pending - 1 } in (st', put_fd_main st')

unfoldable pub put_fd : Result
unfolding put_fd_main
put_fd = let st : PutFdState = record { fd_open = true; pending = 0 } in (st, put_fd_main st)

-- The events: the descriptor is readable, or the chunker has taken a piece. One that cannot happen
-- changes nothing.
pub data Event : Type 0 where
  readable : Input → Event
  taken : Bool → Event

unfoldable pub step : PutFdState → Event → Result
step st (Event.readable i) = if st.fd_open then put_fd_read st i else (st, [])
step st (Event.taken s) = if ltb 0 st.pending then put_fd_read_cb st s else (st, [])

unfoldable pub run : PutFdState → List Event → Result
unfolding step put_fd_read put_fd_read_cb put_fd_main
run st [] = (st, [])
run st (e ∷ es) =
    let (st', done) = step st e in let (st'', rest) = run st' es in (st'', done ++ rest)
