-- ===== src/Gtcd/Transfer.antt =====
-- A transfer in the sequential mode, whatever the order of the events.
use mathlib.Core.List.{append-nil, append_assoc}
use ditto.Prelude.{
  ℕ, suc, ◌<◌, ◌≡◌, refl, sym, ap, ◌∙◌, false, some, List, [], ◌∷◌, ◌++◌, length, take, drop, arith,
  inl,
}
use ditto.Prelude.Bytes.{Bytes}
use ditto.Gtcd.{XferMode, Descriptor}
use ditto.Gtcd.Run.{Phase, System, Event, run, unknowns, started}
use ditto.Gtcd.InOrder.{Good, InPhase, concat, concat-split}
use ditto.Gtcd.Steps.{run-Steps}

length-unknowns : (ds : List Descriptor) → length (unknowns ds) ≡ length ds
unfolding unknowns
length-unknowns [] = refl
length-unknowns (d ∷ ds) = ap suc (length-unknowns ds)

pub started-Good :
    (descs : List Descriptor) (contents : List Bytes)
    → 0 < length descs
    → Good descs contents (started XferMode.sequential descs)
unfolding Good started
started-Good descs contents l = (
  (
    _,
    refl,
    record {
      mode = refl;
      has_descs = refl;
      status = unknowns descs;
      has_status = refl;
      long = length-unknowns descs;
      count = refl;
      room = omega arith;
      bytes = refl;
      offset = refl;
    },
    refl,
    refl,
    (λ u. refl),
    inl l,
  ),
  refl,
)

-- What the invariant says of the client.
Prefix : List Bytes → System → Type 0
Prefix contents s =
    ((rest : Bytes) × (s.received ++ rest ≡ concat contents))
    × (s.phase ≡ Phase.ended → s.received ≡ concat contents)
    × (s.misplaced ≡ false)

module _ (descs : List Descriptor) (contents : List Bytes) where
  prefix :
      (k : ℕ) (r rest : Bytes)
      → r ++ rest ≡ concat (take k contents)
      → (rest' : Bytes) × (r ++ rest' ≡ concat contents)
  prefix k r rest e = (
    rest ++ concat (drop k contents),
    sym (append_assoc r rest (concat (drop k contents)))
        ∙ ap (λ (x : Bytes). x ++ concat (drop k contents)) e
        ∙ concat-split k contents,
  )

  Good-Prefix :
      (s : System) (p : Phase)
      → s.phase ≡ p
      → InPhase descs contents s p
      → s.misplaced ≡ false
      → Prefix contents s
  unfolding Prefix
  Good-Prefix s Phase.idle w (d, there, c, a1, a2, a3, a4) placed =
      (prefix d.descs_xfered s.received d.buf c.bytes, (λ u. absurd cc), placed)
  Good-Prefix s Phase.waiting w (d, there, c, a1, a2, a3, a4, a5) placed =
      (prefix d.descs_xfered s.received d.buf c.bytes, (λ u. absurd cc), placed)
  Good-Prefix s (Phase.loading b i) w (d, there, c, a1, a2, a3, a4) placed =
      (prefix d.descs_xfered s.received d.buf c.bytes, (λ u. absurd cc), placed)
  Good-Prefix s Phase.ended w (gone, quiet, whole) placed =
      (([], append-nil s.received ∙ whole), (λ u. whole), placed)
  Good-Prefix s Phase.failed w (gone, quiet, (k, rest, e)) placed =
      (prefix k s.received rest e, (λ u. absurd cc), placed)

-- A sequential transfer of at least one chunk, where the client asks again only after a reply:
-- requests, the timer, reports of chunks and of errors by the transfer plugin and reads of the
-- storage plugin, in any order, never make a handler fault, where storage has bytes for each chunk;
-- what the client has received is the start of the chunks one after the other, each reply's offset
-- is the number of bytes before it modulo 2 ^ 32, and if a reply is marked as the last, everything
-- was received.
pub run-in_order :
    (send_size : ℕ) (descs : List Descriptor) (contents : List Bytes) (es : List Event)
    → length contents ≡ length descs
    → 0 < length descs
    → (s : System) × (run send_size contents (started XferMode.sequential descs) es ≡ some s)
      × ((rest : Bytes) × (s.received ++ rest ≡ concat contents))
      × (s.phase ≡ Phase.ended → s.received ≡ concat contents)
      × (s.misplaced ≡ false)
unfolding Prefix Good
run-in_order send_size descs contents es known some_chunk =
    let (s, runs, (g, placed)) =
      run-Steps send_size descs contents known (started XferMode.sequential descs) es
        (started-Good descs contents some_chunk) in
    let (part, whole, right) = Good-Prefix descs contents s s.phase refl g placed in
    (s, runs, part, whole, right)
