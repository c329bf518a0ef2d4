-- ===== src/Tests/Hops.antt =====
-- One hop and its connection.
use ditto.Prelude.{◌≡◌, refl, true, false, none, some, [], ◌∷◌, arith}
use ditto.Prelude.Bytes.{Bytes, find, put, bytes_eq}
use ditto.Xfer.Messages.{ErrMsg}
use ditto.Xfer.Chunk.{ConnUse, Next}
use ditto.Xfer.Connections.{
  ℤ, inc, reaches, ConnEntry, Call, Client, deref, set_at, get_chunk, get_connection, first_waiting,
  Established, establish_connection, settle,
}
use ditto.Xfer.Connections.Bounded.{Bounded}
use ditto.Xfer.Connections.Reached.{Reachable, Step, Reachable-Bounded}
use ditto.Xfer.Connections.Leak.{failed_requests, leaked-stuck}
use ditto.Xfer.Connections.Other.{
  Asked, limited, get_other, get_other_clnt, Counts, request_descriptors, finish_others,
  request_descriptors-finish_others,
}
use ditto.Xfer.Connections.Waiting.{settle-starts, refused_connection}

abbrev none_yet : Client
none_yet = record {
  conns = [];
  conn_cache = [];
  pending_conn_cache = [];
  calls = [];
  answers = [];
  now = 0;
}

abbrev hop : Bytes → Bytes
hop id = 9 ∷ []

abbrev asked_once : Client
asked_once = record none_yet { pending_conn_cache = (9 ∷ [], (1 ∷ []) ∷ []) ∷ [] }

-- A request for a chunk, one for descriptors whose own attempt connects, one for a bitmap on that
-- connection, and one more for descriptors.
abbrev served : Client
served = record asked_once {
  conns = some (record { key = 9 ∷ []; refcount = ℤ.pos 3; tv = 0; wait_cb = [] }) ∷ [];
  conn_cache = (9 ∷ [], 0) ∷ [];
}

Reachable-Bounded_example : Bounded 2 served
unfolding get_chunk get_connection get_other get_other_clnt limited deref set_at inc reaches
    bytes_eq find put
Reachable-Bounded_example =
    Reachable-Bounded hop (λ b. b) 2 served
      (Reachable.then_descriptors (9 ∷ []) (Asked.called 0)
        (Reachable.then_step
          (Reachable.then_step
            (Reachable.then_descriptors (9 ∷ []) Asked.tcpconnect
              (Reachable.then_step Reachable.start (Step.asked (1 ∷ []) refl)) refl)
            (Step.other_connected (9 ∷ []) true))
          (Step.asked_bitmap (9 ∷ []) (Asked.called 0) refl))
        refl)

abbrev conn : ConnEntry
conn = record { key = 9 ∷ []; refcount = ℤ.pos 49; tv = 0; wait_cb = [] }

abbrev idle : Client
idle = record none_yet { conns = some conn ∷ []; conn_cache = (9 ∷ [], 0) ∷ [] }

leaked-stuck_example :
    (s' : Client) × (failed_requests hop (λ b. b) 1 idle (1 ∷ []) ErrMsg.invalid_offset ≡ some s')
    × (s'.calls ≡ [])
    × (s'' : Client) × (get_chunk hop s' (3 ∷ []) ≡ some s'')
    × (s''.calls ≡ [])
    × (s''.answers ≡ s'.answers)
unfolding find deref bytes_eq
leaked-stuck_example =
    leaked-stuck hop (λ b. b) idle (1 ∷ []) (3 ∷ []) ErrMsg.invalid_offset 0 49 1 refl
      (refl, refl, conn, refl, refl) refl

abbrev full : ConnEntry
full = record conn { refcount = ℤ.pos 50; wait_cb = some (2 ∷ []) ∷ [] }

abbrev call : Call
call = record { conn = 0; chunk = 1 ∷ []; dat = [] }

settle-starts_example :
    settle hop
      (record idle { conns = some full ∷ [] })
      call
      (ConnUse.released, Next.call_data (1 ∷ []) [])
    ≡ some (record idle {
      conns = set_at 0 (some (record full { wait_cb = none ∷ [] })) (some full ∷ []);
      calls = record { conn = 0; chunk = 2 ∷ []; dat = [] } ∷ [];
      answers = (1 ∷ [], true) ∷ [];
    })
unfolding find deref bytes_eq first_waiting
settle-starts_example =
    settle-starts hop (record idle { conns = some full ∷ [] }) call [] full 49 (2 ∷ []) (none ∷ [])
      refl refl (omega arith) refl refl

refused_connection_example : establish_connection asked_once (9 ∷ []) false ≡ Established.ran none
unfolding get_chunk get_connection find put
refused_connection_example = refused_connection hop none_yet asked_once (1 ∷ []) refl refl

abbrev busy : Client
busy = record idle {
  conns = some (record conn { wait_cb = some (2 ∷ []) ∷ []; refcount = ℤ.pos 50 }) ∷ [];
}

-- Two requests for descriptors above the limit, and a request for a chunk that waits through all.
request_descriptors-finish_others_example :
    (s1 : Client) × (request_descriptors 2 busy (9 ∷ []) ≡ some s1)
    × Counts busy (9 ∷ []) 0 (some (2 ∷ []) ∷ []) 52 s1
    × (s2 : Client) × (finish_others hop 52 s1 0 ≡ some s2)
    × Counts busy (9 ∷ []) 0 (some (2 ∷ []) ∷ []) 0 s2
unfolding find deref bytes_eq
request_descriptors-finish_others_example =
    request_descriptors-finish_others hop 2 50 busy (9 ∷ []) 0
      (record conn { wait_cb = some (2 ∷ []) ∷ []; refcount = ℤ.pos 50 }) refl refl refl
