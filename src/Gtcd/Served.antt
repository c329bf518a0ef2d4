-- ===== src/Gtcd/Served.antt =====
-- A transfer in the sequential mode: `transfer_data` returns, and what it returns keeps the invariant.
pub mod Read
pub mod Ask
pub mod Fetched
pub mod Events
pub mod Reports
use mathlib.Core.List.{append_assoc}
use mathlib.Core.Path.{subst}
use ditto.Prelude.{
  ℕ, zero, suc, ◌+◌, ◌≤◌, ◌<◌, ◌≡◌, refl, sym, ap, ◌∙◌, Bool, true, false, not, ◌&&◌, Option, none,
  some, List, [], ◌∷◌, ◌++◌, length, take, arith, ltb, ◌==◌, Bool-cases, Option-cases, inl, inr,
  if◌then◌else◌, ◌>>=◌, >>=_step, elim_some, elim_none,
}
use ditto.Prelude.Bytes.{Bytes}
use ditto.Gtcd.{
  XferMode, DescStatus, Descriptor, XferData, Out, Outcome, is_on_storage, is_sequential, stored_at,
  set_status, actual_transfer_data, transfer_data, read_ahead, get_chunk_cb,
}
use ditto.Gtcd.Run.{Phase, System, after, content}
use ditto.Gtcd.InOrder.{Core, Good, Lands, concat, concat-take, actual_fails, actual_sends}

pub in_order : (d : XferData) → d.xmode ≡ XferMode.sequential → is_sequential d.xmode ≡ true
unfolding is_sequential
in_order d e = rw e refl

pub stored_at_total :
    (status : List DescStatus) (i : ℕ)
    → i < length status
    → (b : Bool) × (stored_at status i ≡ some b)
unfolding stored_at
stored_at_total [] i h = absurd (omega arith)
stored_at_total (x ∷ xs) zero h = (is_on_storage x, refl)
stored_at_total (x ∷ xs) (suc i) h = stored_at_total xs i (omega arith)

pub set_status_total :
    (status : List DescStatus) (i : ℕ) (st : DescStatus)
    → i < length status
    → (status' : List DescStatus) × (set_status status i st ≡ some status')
      × (length status' ≡ length status)
unfolding set_status
set_status_total [] i st h = absurd (omega arith)
set_status_total (x ∷ xs) zero st h = (st ∷ xs, refl, refl)
set_status_total (x ∷ xs) (suc i) st h =
    let (ys, e, l) = set_status_total xs i st (omega arith) in
    (x ∷ ys, >>=_step (set_status xs i st) _ ys e refl, ap suc l)

module _ (descs : List Descriptor) (contents : List Bytes) where
  -- The step returns, and keeps the invariant.
  abbrev pub Goes : System → Option Outcome → Type 0
  Goes s m = (r : Outcome) × (m ≡ some r) × Lands descs contents s r

  -- What a handler relies on in an entry whose request is being answered.
  pub record Ready (s : System) (d : XferData) : Type 0 where
    pub core : Core descs contents 0 s.received d
    pub free : d.xcb ≡ none
    pub quiet : s.scheduled ≡ false
    pub asks : d.fetching ≡ false → s.asked ≡ false
    pub placed : s.misplaced ≡ false

  module _ (send_size : ℕ) (known : length contents ≡ length descs) where
    -- The next chunk is read.
    pub reads :
        (s : System) (sbp : ℕ) (d : XferData)
        → Ready s d
        → d.descs_xfered < length descs
        → Lands descs contents s (
          some (record d { descs_count = d.descs_count + 1 }),
          Out.get_chunk sbp d.descs_count none ∷ [],
        )
    unfolding Good
    reads s sbp d h l =
        let c = h.core in
        (
          (
            record d { descs_count = d.descs_count + 1 },
            refl,
            record {
              mode = c.mode;
              has_descs = c.has_descs;
              status = c.status;
              has_status = c.has_status;
              long = c.long;
              count = omega (arith, c.count);
              room = omega arith;
              bytes = c.bytes;
              offset = c.offset;
            },
            h.free,
            h.quiet,
            h.asks,
            omega (arith, c.count),
          ),
          h.placed,
        )

    pub sends_now :
        (s : System) (sbp : ℕ) (d : XferData)
        → Ready s d
        → Lands descs contents s (actual_transfer_data send_size sbp descs d)
    sends_now s sbp d h = elim (Option-cases d.err) [
      | inr (e, broken) ↦
          actual_fails descs contents send_size known s sbp descs d e h.core.bytes h.quiet h.placed
            broken
      | inl fine ↦
          actual_sends descs contents send_size known s sbp d h.core h.free h.quiet h.asks h.placed
            fine
    ]

    pub transfer_data-Goes :
        (s : System) (sbp : ℕ) (d : XferData) → Ready s d → Goes s (transfer_data send_size sbp d)
    unfolding transfer_data is_sequential
    transfer_data-Goes s sbp d h =
        let c = h.core in
        elim (Option-cases d.err) [
          | inr (e, broken) ↦ (
            actual_transfer_data send_size sbp [] d,
            elim_some d.err _ _ e broken refl,
            actual_fails descs contents send_size known s sbp [] d e c.bytes h.quiet h.placed
                broken,
          )
          | inl fine ↦
              elim (Bool-cases
                (ltb (length d.buf) send_size && not (d.descs_xfered == length descs))) [
                  | inr full ↦ (
                    actual_transfer_data send_size sbp descs d,
                    elim_none d.err _ _ fine (
                        >>=_step d.descs _ descs c.has_descs (
                          >>=_step d.descs_status _ c.status c.has_status
                            (rw (c.mode, full) refl))),
                    sends_now s sbp d h,
                  )
                  | inl more ↦
                      let (b, e) =
                        stored_at_total c.status d.descs_count
                          (ground (arith, c.count, c.long, c.room)) in
                      elim (Bool-cases b) [
                        | inl there ↦ (
                          (
                            some (record d { descs_count = d.descs_count + 1 }),
                            Out.get_chunk sbp d.descs_count none ∷ [],
                          ),
                          elim_none d.err _ _ fine (
                              >>=_step d.descs _ descs c.has_descs (
                                >>=_step d.descs_status _ c.status c.has_status (
                                  rw (c.mode, more)
                                    (>>=_step (stored_at c.status d.descs_count) _ b e
                                      (rw there refl))))),
                          reads s sbp d h (ground (arith, c.room)),
                        )
                        | inr missing ↦ (
                          actual_transfer_data send_size sbp descs d,
                          elim_none d.err _ _ fine (
                              >>=_step d.descs _ descs c.has_descs (
                                >>=_step d.descs_status _ c.status c.has_status (
                                  rw (c.mode, more)
                                    (>>=_step (stored_at c.status d.descs_count) _ b e
                                      (rw missing refl))))),
                          sends_now s sbp d h,
                        )
                      ]
                ]
        ]
