-- ===== src/Gtcd/Served/Fetched.antt =====
-- What the loops of `fetch_data` and `xp_fetch_data_cb` return, and the effects that change nothing in
-- the transfer.
use ditto.Prelude.{
  suc, ◌≡◌, refl, ap, ◌∙◌, Bool, true, false, some, List, [], ◌∷◌, ◌++◌, length, arith, Bool-cases,
  inl, inr, >>=_step,
}
use ditto.Prelude.Bytes.{Bytes, bytes_eq}
use ditto.Gtcd.{DescStatus, Descriptor, GetDataRes, Out, is_on_storage}
use ditto.Gtcd.Fetch.{mark, arrived}
use ditto.Gtcd.Run.{System, send, sends}

pub sends-append : (s : System) (xs ys : List Out) → sends s (xs ++ ys) ≡ sends (sends s xs) ys
sends-append s [] ys = refl
sends-append s (x ∷ xs) ys = sends-append (send s x) xs ys

-- `asked` is only written.
send-asked :
    (s : System) (o : Out) → send (record s { asked = true }) o ≡ record (send s o) { asked = true }
send-asked s (Out.reply sbp (GetDataRes.errmsg e)) = refl
send-asked s (Out.reply sbp (GetDataRes.resok end offset dat)) = refl
send-asked s (Out.get_chunk sbp i offset) = refl
send-asked s Out.fetch_data = refl
send-asked s (Out.release_ichunk d) = refl
send-asked s (Out.inc_chunk_refcount d) = refl
send-asked s (Out.put_ichunk d dat) = refl
send-asked s (Out.get_chunks ds) = refl

pub sends-asked :
    (s : System) (os : List Out)
    → sends (record s { asked = true }) os ≡ record (sends s os) { asked = true }
sends-asked s [] = refl
sends-asked s (o ∷ os) =
    ap (λ (t : System). sends t os) (send-asked s o) ∙ sends-asked (send s o) os

pub mark_total :
    (has : Descriptor → Bool) (descs : List Descriptor) (status : List DescStatus)
    → length status ≡ length descs
    → (status' : List DescStatus) × (taken : List Out) × (missing : List Descriptor) × (mark has
          descs status
        ≡ some (status', taken, missing))
      × (length status' ≡ length descs)
      × ((s : System) → sends s taken ≡ s)
unfolding mark
mark_total has [] [] l = ([], [], [], refl, refl, (λ s. refl))
mark_total has (c ∷ descs) [] l = absurd (omega arith)
mark_total has [] (st ∷ status) l = absurd (omega arith)
mark_total has (c ∷ descs) (st ∷ status) l =
    let (status', taken, missing, e, l', quiet) = mark_total has descs status (omega arith) in
    elim (Bool-cases (has c)) [
      | inl here ↦ (
        DescStatus.on_storage ∷ status',
        Out.inc_chunk_refcount c ∷ taken,
        missing,
        >>=_step (mark has descs status) _ (status', taken, missing) e (rw here refl),
        ap suc l',
        quiet,
      )
      | inr away ↦ (
        DescStatus.requested ∷ status',
        taken,
        c ∷ missing,
        >>=_step (mark has descs status) _ (status', taken, missing) e (rw away refl),
        ap suc l',
        quiet,
      )
    ]

pub arrived_total :
    (id : Bytes) (descs : List Descriptor) (status : List DescStatus)
    → length status ≡ length descs
    → (status' : List DescStatus) × (match : Bool) × (arrived id descs status
        ≡ some (status', match))
      × (length status' ≡ length descs)
unfolding arrived
arrived_total id [] [] l = ([], false, refl, refl)
arrived_total id (c ∷ descs) [] l = absurd (omega arith)
arrived_total id [] (st ∷ status) l = absurd (omega arith)
arrived_total id (c ∷ descs) (st ∷ status) l =
    let (status', match, e, l') = arrived_total id descs status (omega arith) in
    elim (Bool-cases (bytes_eq c.id id)) [
      | inr other ↦ (
        st ∷ status',
        match,
        rw other (>>=_step (arrived id descs status) _ (status', match) e refl),
        ap suc l',
      )
      | inl same ↦ elim (Bool-cases (is_on_storage st)) [
        | inl old ↦ (st ∷ status, false, rw (same, old) refl, l)
        | inr new ↦ (
          DescStatus.on_storage ∷ status',
          true,
          rw (same, new) (>>=_step (arrived id descs status) _ (status', match) e refl),
          ap suc l',
        )
      ]
    ]
