-- ===== src/Gtcd/InOrder.antt =====
-- A transfer in the sequential mode: the invariant of its entry and of its surroundings, and that no
-- order of the events breaks it.
use mathlib.Core.List.{append_assoc, append-nil}
use mathlib.Core.Path.{subst}
use ditto.Prelude.{
  ℕ, zero, suc, ◌+◌, ◌≤◌, ◌<◌, ◌≡◌, refl, sym, ap, ◌∙◌, Bool, true, false, not, ◌||◌, ◌⊎◌, inl, inr,
  Option, none, some, List, [], ◌∷◌, ◌++◌, map, length, take, drop, ◌%◌, ◌^◌, add32, arith, leb,
  ◌==◌, Bool-cases, take-drop, length-take, length-drop, length-append, take_all, case_some,
  case_none,
}
use ditto.Prelude.Bytes.{Bytes}
use ditto.Gtcd.{XferMode, DescStatus, Descriptor, XferData, Out, Outcome, actual_transfer_data}
use ditto.Gtcd.Run.{Phase, System, sends, after, content}

abbrev pub concat : List Bytes → Bytes
concat [] = []
concat (c ∷ cs) = c ++ concat cs

pub concat-take :
    (k : ℕ) (cs : List Bytes) → concat (take (suc k) cs) ≡ concat (take k cs) ++ content cs k
unfolding content
concat-take zero [] = refl
concat-take (suc k) [] = refl
concat-take zero (c ∷ cs) = append-nil c
concat-take (suc k) (c ∷ cs) =
    ap (λ (x : Bytes). c ++ x) (concat-take k cs)
    ∙ sym (append_assoc c (concat (take k cs)) (content cs k))

pub concat-split : (k : ℕ) (cs : List Bytes) → concat (take k cs) ++ concat (drop k cs) ≡ concat cs
concat-split zero cs = refl
concat-split (suc k) [] = refl
concat-split (suc k) (c ∷ cs) =
    append_assoc c (concat (take k cs)) (concat (drop k cs))
    ∙ ap (λ (x : Bytes). c ++ x) (concat-split k cs)

pub sends-released : (s : System) (ds : List Descriptor) → sends s (map Out.release_ichunk ds) ≡ s
sends-released s [] = refl
sends-released s (d ∷ ds) = sends-released s ds

module _ (descs : List Descriptor) (contents : List Bytes) where
  -- The entry `d` when `r` was received, `off` chunks being read: what was received and the buffer
  -- are the chunks transferred so far.
  pub record Core (off : ℕ) (r : Bytes) (d : XferData) : Type 0 where
    pub mode : d.xmode ≡ XferMode.sequential
    pub has_descs : d.descs ≡ some descs
    pub status : List DescStatus
    pub has_status : d.descs_status ≡ some status
    pub long : length status ≡ length descs
    pub count : d.descs_count ≡ d.descs_xfered + off
    pub room : d.descs_xfered + off ≤ length descs
    pub bytes : r ++ d.buf ≡ concat (take d.descs_xfered contents)
    pub offset : d.buf_offset ≡ length r % 2 ^ 32

  -- Fields that the invariant does not speak of.
  pub retold :
      (off : ℕ) (r : Bytes) (d : XferData) (fetching : Bool) (xcb : Option ℕ) (err : Option Bytes)
      → Core off r d
      → Core off r (record d { fetching = fetching; xcb = xcb; err = err })
  retold off r d fetching xcb err c = record {
    mode = c.mode;
    has_descs = c.has_descs;
    status = c.status;
    has_status = c.has_status;
    long = c.long;
    count = c.count;
    room = c.room;
    bytes = c.bytes;
    offset = c.offset;
  }

  -- The states change, not their number.
  pub restated :
      (off : ℕ) (r : Bytes) (d : XferData) (status : List DescStatus)
      → length status ≡ length descs
      → Core off r d
      → Core off r (record d { descs_status = some status })
  restated off r d status l c = record {
    mode = c.mode;
    has_descs = c.has_descs;
    status = status;
    has_status = refl;
    long = l;
    count = c.count;
    room = c.room;
    bytes = c.bytes;
    offset = c.offset;
  }

  abbrev pub InPhase : System → Phase → Type 0
  InPhase s Phase.idle =
      (d : XferData) × (s.xfer ≡ some d)
      × Core 0 s.received d
      × (d.xcb ≡ none)
      × (s.scheduled ≡ false)
      × (d.fetching ≡ false → s.asked ≡ false)
      × ((d.descs_xfered < length descs) ⊎ (0 < length d.buf))
  InPhase s Phase.waiting =
      (d : XferData) × (s.xfer ≡ some d)
      × Core 0 s.received d
      × ((sbp : ℕ) × (d.xcb ≡ some sbp))
      × (d.buf ≡ [])
      × (d.descs_xfered < length descs)
      × (s.scheduled ≡ true → s.asked ≡ false)
      × (d.fetching ≡ true)
  InPhase s (Phase.loading sbp i) =
      (d : XferData) × (s.xfer ≡ some d)
      × Core 1 s.received d
      × (d.xcb ≡ none)
      × (s.scheduled ≡ false)
      × (d.fetching ≡ false → s.asked ≡ false)
      × (i ≡ d.descs_xfered)
  InPhase s Phase.ended = (s.xfer ≡ none) × (s.scheduled ≡ false) × (s.received ≡ concat contents)
  InPhase s Phase.failed =
      (s.xfer ≡ none)
      × (s.scheduled ≡ false)
      × ((k : ℕ) × (rest : Bytes) × (s.received ++ rest ≡ concat (take k contents)))

  unfoldable pub Good : System → Type 0
  Good s = InPhase s s.phase × (s.misplaced ≡ false)

  abbrev pub Lands : System → Outcome → Type 0
  unfolding Good
  Lands s r = Good (after s r)

  module _ (send_size : ℕ) (known : length contents ≡ length descs) where
    still_placed :
        (s : System) (d : XferData)
        → Core 0 s.received d
        → s.misplaced ≡ false
        → (s.misplaced || not (d.buf_offset == length s.received % 2 ^ 32)) ≡ false
    still_placed s d c placed = rw (placed, c.offset) (ground arith)

    -- The entry after `sent` was taken off the buffer.
    sent_Core :
        (s : System) (d : XferData)
        → Core 0 s.received d
        → (n : ℕ) (sent rest : Bytes) → sent ++ rest ≡ d.buf
        → length sent ≡ n
        → Core 0 (s.received ++ sent) (record d { buf = rest; buf_offset = add32 d.buf_offset n })
    sent_Core s d c n sent rest e l = record {
      mode = c.mode;
      has_descs = c.has_descs;
      status = c.status;
      has_status = c.has_status;
      long = c.long;
      count = c.count;
      room = c.room;
      bytes = append_assoc s.received sent rest ∙ ap (λ (x : Bytes). s.received ++ x) e ∙ c.bytes;
      offset = omega (arith, c.offset, l, length-append s.received sent);
    }

    pub actual_fails :
        (s : System) (sbp : ℕ) (ds : List Descriptor) (d : XferData) (e : Bytes)
        → s.received ++ d.buf ≡ concat (take d.descs_xfered contents)
        → s.scheduled ≡ false
        → s.misplaced ≡ false
        → d.err ≡ some e
        → Lands s (actual_transfer_data send_size sbp ds d)
    unfolding actual_transfer_data Good
    actual_fails s sbp ds d e bytes quiet placed broken =
        subst (Lands s) (sym (case_some d.err _ _ e broken))
          ((refl, quiet, (d.descs_xfered, d.buf, bytes)), placed)

    pub actual_sends :
        (s : System) (sbp : ℕ) (d : XferData)
        → Core 0 s.received d
        → d.xcb ≡ none
        → s.scheduled ≡ false
        → (d.fetching ≡ false → s.asked ≡ false)
        → s.misplaced ≡ false
        → d.err ≡ none
        → Lands s (actual_transfer_data send_size sbp descs d)
    unfolding actual_transfer_data Good
    actual_sends s sbp d c free quiet asks placed fine =
        subst (Lands s) (sym (case_none d.err _ _ fine))
          (elim (Bool-cases (leb (length d.buf) send_size)) [
            | inl fits ↦ elim (Bool-cases (d.descs_xfered == length descs)) [
              | inl last ↦
                  rw (fits, last)
                    (subst Good (sym (sends-released _ descs)) (
                      (
                        refl,
                        quiet,
                        c.bytes ∙ ap concat (take_all d.descs_xfered contents (ground arith)),
                      ),
                      still_placed s d c placed,
                    ))
              | inr more ↦
                  rw (fits, more)
                    (
                      (
                        record d { buf = []; buf_offset = add32 d.buf_offset (length d.buf) },
                        refl,
                        sent_Core s d c (length d.buf) d.buf [] (append-nil d.buf) refl,
                        free,
                        quiet,
                        asks,
                        inl (ground (arith, c.room)),
                      ),
                      still_placed s d c placed,
                    )
            ]
            | inr large ↦ rw large (
              (
                record d { buf = drop send_size d.buf; buf_offset = add32 d.buf_offset send_size },
                refl,
                sent_Core s d c send_size (take send_size d.buf) (drop send_size d.buf)
                    (take-drop send_size d.buf) (ground (arith, length-take send_size d.buf)),
                free,
                quiet,
                asks,
                inr (ground (arith, length-drop send_size d.buf)),
              ),
              still_placed s d c placed,
            )
          ])
