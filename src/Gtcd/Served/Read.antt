-- ===== src/Gtcd/Served/Read.antt =====
-- A transfer in the sequential mode: `get_chunk_cb` and the reading ahead at its end return, and keep
-- the invariant.
use mathlib.Core.List.{append_assoc}
use mathlib.Core.Path.{subst}
use ditto.Prelude.{
  ℕ, suc, ◌+◌, ◌≡◌, refl, sym, ap, ◌∙◌, true, false, not, ◌&&◌, Option, none, some, List, [], ◌∷◌,
  ◌++◌, length, take, arith, ltb, ◌==◌, Bool-cases, inl, inr, >>=_step,
}
use ditto.Prelude.Bytes.{Bytes}
use ditto.Gtcd.{
  DescStatus, Descriptor, XferData, Out, is_sequential, stored_at, set_status, actual_transfer_data,
  read_ahead, get_chunk_cb,
}
use ditto.Gtcd.Run.{System, content}
use ditto.Gtcd.InOrder.{Core, Lands, concat, concat-take, actual_fails}
use ditto.Gtcd.Served.{stored_at_total, set_status_total, Goes, Ready, reads, sends_now}

module _ (descs : List Descriptor) (contents : List Bytes) where
  module _ (send_size : ℕ) (known : length contents ≡ length descs) where
    one_more :
        (d : XferData) (i : ℕ) (r : Bytes)
        → r ++ d.buf ≡ concat (take d.descs_xfered contents)
        → i ≡ d.descs_xfered
        → r ++ (d.buf ++ content contents i) ≡ concat (take (d.descs_xfered + 1) contents)
    one_more d i r h same =
        sym (append_assoc r d.buf (content contents i))
        ∙ ap (λ (x : Bytes). x ++ content contents i) h
        ∙ ap (λ (n : ℕ). concat (take d.descs_xfered contents) ++ content contents n) same
        ∙ sym (concat-take d.descs_xfered contents)
        ∙ ap (λ (n : ℕ). concat (take n contents)) {x = suc d.descs_xfered} (omega arith)

    read_ahead-Goes :
        (s : System) (sbp desc_no : ℕ) (status : List DescStatus) (d : XferData)
        → Ready descs contents s d
        → length status ≡ length descs
        → d.descs_xfered ≡ desc_no + 1
        → Goes descs contents s (read_ahead send_size sbp desc_no descs status d)
    unfolding read_ahead is_sequential
    read_ahead-Goes s sbp desc_no status d h long e =
        let c = h.core in
        let at : (d.descs_count == desc_no + 1) ≡ true = ground (arith, c.count, e) in
        elim (Bool-cases (ltb (length d.buf) send_size && not (d.descs_xfered == length descs))) [
          | inr full ↦ (
            actual_transfer_data send_size sbp descs d,
            rw full refl,
            sends_now descs contents send_size known s sbp d h,
          )
          | inl more ↦
              let (b, found) = stored_at_total status (desc_no + 1) (ground (arith, c.room)) in
              elim (Bool-cases b) [
                | inl there ↦ (
                  (
                    some (record d { descs_count = d.descs_count + 1 }),
                    Out.get_chunk sbp (desc_no + 1) none ∷ [],
                  ),
                  rw more (
                      >>=_step (stored_at status (desc_no + 1)) _ b found
                        (rw (there, c.mode, at) refl)),
                  subst
                      (λ (n : ℕ). Lands descs contents s (
                        some (record d { descs_count = d.descs_count + 1 }),
                        Out.get_chunk sbp n none ∷ [],
                      ))
                      (omega (arith, c.count, e))
                      (reads descs contents send_size known s sbp d h (ground (arith, c.room))),
                )
                | inr missing ↦ (
                  actual_transfer_data send_size sbp descs d,
                  rw more (>>=_step (stored_at status (desc_no + 1)) _ b found (rw missing refl)),
                  sends_now descs contents send_size known s sbp d h,
                )
              ]
        ]

    pub get_chunk_cb-Goes :
        (s : System) (sbp i : ℕ) (e : Option Bytes) (d : XferData)
        → Core descs contents 1 s.received d
        → d.xcb ≡ none
        → s.scheduled ≡ false
        → (d.fetching ≡ false → s.asked ≡ false)
        → s.misplaced ≡ false
        → i ≡ d.descs_xfered
        → Goes descs contents s (get_chunk_cb send_size sbp i none e (content contents i) d)
    unfolding get_chunk_cb
    get_chunk_cb-Goes s sbp i (some e) d c free quiet asks placed same = (
      actual_transfer_data send_size sbp [] (record d { err = some e }),
      refl,
      actual_fails descs contents send_size known s sbp [] (record d { err = some e }) e c.bytes
          quiet placed refl,
    )
    get_chunk_cb-Goes s sbp i none d c free quiet asks placed same =
        let (status, written, l) =
          set_status_total c.status i DescStatus.done (omega (arith, c.long, c.room)) in
        let d' : XferData = record d {
          buf = d.buf ++ content contents i;
          descs_status = some status;
          descs_xfered = d.descs_xfered + 1;
        } in
        let (r, runs, lands) =
          read_ahead-Goes s sbp i status d'
            (record {
              core = record {
                mode = c.mode;
                has_descs = c.has_descs;
                status = status;
                has_status = refl;
                long = l ∙ c.long;
                count = omega (arith, c.count);
                room = omega (arith, c.room);
                bytes = one_more d i s.received c.bytes same;
                offset = c.offset;
              };
              free = free;
              quiet = quiet;
              asks = asks;
              placed = placed;
            })
            (l ∙ c.long) (omega arith) in
        (
          r,
          >>=_step d.descs _ descs c.has_descs (
              >>=_step d.descs_status _ c.status c.has_status
                (>>=_step (set_status c.status i DescStatus.done) _ status written runs)),
          lands,
        )
