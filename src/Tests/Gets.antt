-- ===== src/Tests/Gets.antt =====
-- Two chunks of three and two bytes, got four bytes at a time.
use ditto.Prelude.{◌≡◌, refl, true, false, none, some, List, [], ◌∷◌, ◌++◌, arith}
use ditto.Prelude.Bytes.{Bytes}
use ditto.Gtcd.{XferMode, DescStatus, Descriptor, XferData, get_chunk_cb, stored_at, is_on_storage}
use ditto.Gtcd.Fetch.{get_data, xp_fetch_data_cb}
use ditto.Gtcd.Run.{Phase, System, Event, run, started}
use ditto.Gtcd.Transfer.{run-in_order}
use ditto.Gtcd.Faults.{get_chunk_cb-last, xp_fetch_data_cb-unheard}
use ditto.Gtcd.Table
use ditto.Gtcd.Table.{Gtcd}
use ditto.Gtcd.PutFd
use ditto.Gtcd.PutFd.{Input, put_fd}
use ditto.Gtcd.PutFd.Whole.{objects, commits, due, run-put_fd}
use ditto.Gtcd.Ends.Loop.{drive}
use ditto.Gtcd.Ends.Whole.{drive-ends}

abbrev two_descs : List Descriptor
two_descs = record { id = 1 ∷ []; size = 3 } ∷ record { id = 2 ∷ []; size = 2 } ∷ []

abbrev two_contents : List Bytes
two_contents = (10 ∷ 11 ∷ 12 ∷ []) ∷ (20 ∷ 21 ∷ []) ∷ []

-- The second chunk comes before the first.
abbrev out_of_turn : List Event
out_of_turn =
    Event.asks 7
    ∷ Event.timer (λ d. false)
    ∷ Event.arrival none (record { id = 2 ∷ []; size = 2 }) (some (20 ∷ 21 ∷ []))
    ∷ Event.arrival none (record { id = 1 ∷ []; size = 3 }) (some (10 ∷ 11 ∷ 12 ∷ []))
    ∷ Event.read none
    ∷ Event.read none
    ∷ Event.asks 8
    ∷ []

run-in_order_example :
    (s : System) × (run 4 two_contents (started XferMode.sequential two_descs) out_of_turn ≡ some s)
    × ((rest : Bytes) × (s.received ++ rest ≡ 10 ∷ 11 ∷ 12 ∷ 20 ∷ 21 ∷ []))
    × (s.phase ≡ Phase.ended → s.received ≡ 10 ∷ 11 ∷ 12 ∷ 20 ∷ 21 ∷ [])
    × (s.misplaced ≡ false)
run-in_order_example = run-in_order 4 two_descs two_contents out_of_turn refl (omega arith)

drive-ends_example :
    (s : System) × (drive 4 two_contents 16 (started XferMode.sequential two_descs) ≡ some s)
    × (s.phase ≡ Phase.ended)
    × (s.received ≡ 10 ∷ 11 ∷ 12 ∷ 20 ∷ 21 ∷ [])
drive-ends_example =
    drive-ends 4 two_descs two_contents 16 refl (omega arith) (omega arith) (omega arith)

abbrev two_entry : XferMode → List DescStatus → XferData
two_entry mode status = record {
  xmode = mode;
  descs = some two_descs;
  descs_status = some status;
  descs_count = 0;
  descs_xfered = 0;
  buf = [];
  buf_offset = 0;
  fetching = true;
  xcb = none;
  err = none;
  hints = some [];
  sid = 0;
}

get_chunk_cb-last_example :
    get_chunk_cb 4 7 1
      (some 3)
      none
      (20 ∷ 21 ∷ [])
      (two_entry XferMode.out_of_order (DescStatus.requested ∷ DescStatus.on_storage ∷ []))
    ≡ none
get_chunk_cb-last_example =
    get_chunk_cb-last 4 7 1 (some 3) (20 ∷ 21 ∷ [])
      (two_entry XferMode.out_of_order (DescStatus.requested ∷ DescStatus.on_storage ∷ []))
      two_descs (DescStatus.requested ∷ DescStatus.on_storage ∷ []) refl refl refl refl
      (omega arith) (omega arith)

abbrev stuck : XferData
stuck = two_entry XferMode.sequential (DescStatus.requested ∷ DescStatus.requested ∷ [])

xp_fetch_data_cb-unheard_example :
    (xp_fetch_data_cb 4 (some (9 ∷ [])) (record { id = 1 ∷ []; size = 3 }) none stuck
      ≡ some (some (record stuck { err = some (9 ∷ []) }), []))
    × (get_data 4 7 (record stuck { err = some (9 ∷ []) })
        ≡ some (some (record stuck { err = some (9 ∷ []); fetching = true; xcb = some 7 }), []))
unfolding stored_at is_on_storage
xp_fetch_data_cb-unheard_example =
    xp_fetch_data_cb-unheard 4 7 (9 ∷ []) (record { id = 1 ∷ []; size = 3 }) none stuck two_descs
      (DescStatus.requested ∷ DescStatus.requested ∷ []) refl refl refl refl (omega arith) refl refl
      refl

abbrev empty_table : Gtcd
empty_table = record { xfer_table = []; xfer_counter = 1 }

-- Two pieces; the chunker takes the first before the end of the file, the second after it.
abbrev two_pieces : List PutFd.Event
two_pieces =
    PutFd.Event.readable (Input.bytes (1 ∷ []))
    ∷ PutFd.Event.taken false
    ∷ PutFd.Event.readable (Input.bytes (2 ∷ []))
    ∷ PutFd.Event.readable Input.end
    ∷ PutFd.Event.taken false
    ∷ []

run-put_fd_example :
    (objects (PutFd.run (put_fd.0) two_pieces).1 ≡ (1 ∷ []) ∷ (2 ∷ []) ∷ [])
    × (commits (PutFd.run (put_fd.0) two_pieces).1 ≡ due (PutFd.run (put_fd.0) two_pieces).0)
run-put_fd_example = run-put_fd two_pieces (tt, (tt, (tt, (tt, (tt, tt)))))
