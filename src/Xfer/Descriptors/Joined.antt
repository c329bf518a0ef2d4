-- ===== src/Xfer/Descriptors/Joined.antt =====
-- What the pages of GET_DESCRIPTORS are together.
use ditto.Prelude.{
  ℕ, zero, suc, ◌+◌, ◌-◌, ◌%◌, ◌^◌, ◌≤◌, ◌<◌, min, ◌≡◌, refl, sym, ap, ◌∙◌, true, false, ◌&&◌,
  Option, none, some, List, [], ◌∷◌, ◌++◌, ◌⊎◌, inl, inr, length, length-take, length-drop, take,
  drop, take_all, take-drop, add32, ltb, leb, get_elem?, ◌>>=◌, >>=_step, arith, Bool-cases,
}
use ditto.Prelude.Bytes.{Bytes}
use ditto.Xfer.Messages.{GetDescriptorsRes}
use ditto.Xfer.Chunk.{HintStatus, Hint}
use ditto.Xfer.Descriptors.{
  copy_descriptors, remote_get_descriptors_cb, remote_get_descriptors, DescriptorsCall,
  get_desc_internal_cb, fetch_descriptors,
}

-- The descriptors of a list of calls in which exactly the last one says that it is the last.
pub joined : List DescriptorsCall → Option (List Bytes)
joined [] = none
joined (DescriptorsCall.call_error m ∷ calls) = none
joined (DescriptorsCall.call_page p true ∷ []) = some p
joined (DescriptorsCall.call_page p true ∷ c ∷ calls) = none
joined (DescriptorsCall.call_page p false ∷ calls) = do ds ← joined calls; some (p ++ ds)

nth :
    (ds : List Bytes) (i : ℕ)
    → i < length ds
    → (d : Bytes) × (get_elem? ds i ≡ some d) × (drop i ds ≡ d ∷ drop (suc i) ds)
nth [] i h = absurd (omega arith)
nth (d ∷ ds) zero h = (d, refl, refl)
nth (d ∷ ds) (suc i) h = nth ds i (omega arith)

copy-drop :
    (descs : List Bytes) (i n : ℕ)
    → i + n ≤ length descs
    → copy_descriptors descs i n ≡ some (take n (drop i descs))
unfolding copy_descriptors
copy-drop descs i zero h = refl
copy-drop descs i (suc n) h =
    let (d, ed, er) = nth descs i (omega arith) in
    let s : i + 1 ≡ suc i = omega arith in
    >>=_step (get_elem? descs i) _ d ed (
      >>=_step (copy_descriptors descs (i + 1) n) _ _ (copy-drop descs (i + 1) n (omega arith))
        (rw (er, s) refl))

copy_all : (page : List Bytes) (n : ℕ) → length page ≡ n → copy_descriptors page 0 n ≡ some page
copy_all page n h =
    copy-drop page 0 n (omega arith)
    ∙ ap (λ (t : List Bytes). some t) (take_all n page (omega arith))

drop-drop : (m n : ℕ) (xs : List Bytes) → drop m (drop n xs) ≡ drop (m + n) xs
drop-drop m zero xs = let e : m + 0 ≡ m = omega arith in rw e refl
drop-drop m (suc n) [] = nothing m (m + suc n)
  where
    nothing : (a b : ℕ) → drop {A = Bytes} a [] ≡ drop b []
    nothing zero zero = refl
    nothing zero (suc b) = refl
    nothing (suc a) zero = refl
    nothing (suc a) (suc b) = refl
drop-drop m (suc n) (x ∷ xs) =
    let e : m + suc n ≡ suc (m + n) = omega arith in rw e (drop-drop m n xs)

module _ (most : ℕ) (parse_hint : Bytes → HintStatus)
    (sp_get_descriptors : Bytes → Bytes ⊎ List Bytes) (x : ℕ) (oid : Bytes) (first : Bytes)
    (hs : List Bytes) (hint : Hint) (descs : List Bytes)
    (known : parse_hint first ≡ HintStatus.gtc_hint hint)
    (storage : sp_get_descriptors (x ∷ oid) ≡ inr descs) (fits : length descs < 2 ^ 32) where
  page_at :
      (offset numd : ℕ)
      → offset ≡ 0 ⊎ (offset < length descs)
      → numd ≡ min (length descs - offset) most
      → remote_get_descriptors most parse_hint sp_get_descriptors (x ∷ oid) offset (first ∷ hs)
        ≡ some (
            GetDescriptorsRes.resok (record {
              offset = offset;
              count = numd;
              descriptors = take numd (drop offset descs);
              end = leb (length descs - offset) most;
            }))
  unfolding remote_get_descriptors remote_get_descriptors_cb
  page_at offset numd h e =
      let b : (ltb 0 offset && leb (length descs) offset) ≡ false = elim h [
        | inl z ↦ ground (arith, z)
        | inr l ↦ ground (arith, l)
      ] in
      let m : min ((length descs - offset) % 2 ^ 32) most ≡ numd = ground (arith, e) in
      rw (known, storage, b, m, copy-drop descs offset numd (ground (arith, e))) refl

  page : ℕ → List Bytes
  page offset = take (min (length descs - offset) most) (drop offset descs)

  copied :
      (offset : ℕ)
      → copy_descriptors (page offset) 0 (min (length descs - offset) most) ≡ some (page offset)
  unfolding page
  copied offset =
      let numd : ℕ = min (length descs - offset) most in
      copy_all (page offset) numd
        (omega (arith, length-take numd (drop offset descs), length-drop offset descs))

  -- What a run shows from an offset on.
  abbrev From : ℕ → ℕ → Type 0
  From n offset =
      (calls : List DescriptorsCall) × (fetch_descriptors most parse_hint sp_get_descriptors n
          (x ∷ oid) (first ∷ hs) offset
        ≡ some calls)
      × (joined calls ≡ some (drop offset descs))

  last-From :
      (n offset : ℕ)
      → offset ≡ 0 ⊎ (offset < length descs)
      → leb (length descs - offset) most ≡ true
      → From (suc n) offset
  unfolding fetch_descriptors get_desc_internal_cb joined page
  last-From n offset h b =
      let numd : ℕ = min (length descs - offset) most in
      (
        DescriptorsCall.call_page (page offset) true ∷ [],
        rw (page_at offset numd h refl, copied offset, b) refl,
        ap (λ (t : List Bytes). some t)
            (take_all numd (drop offset descs) (ground (arith, length-drop offset descs))),
      )

  more-From :
      (n offset : ℕ)
      → offset ≡ 0 ⊎ (offset < length descs)
      → leb (length descs - offset) most ≡ false
      → From n (most + offset)
      → From (suc n) offset
  unfolding fetch_descriptors get_desc_internal_cb joined page
  more-From n offset h b (calls, ec, ej) =
      let numd : ℕ = min (length descs - offset) most in
      let m : add32 numd offset ≡ most + offset = ground arith in
      let e : numd ≡ most = ground arith in
      (
        DescriptorsCall.call_page (page offset) false ∷ calls,
        rw (page_at offset numd h refl, copied offset, b, m, ec) refl,
        rw ej (
            ap (λ (t : List Bytes). some (page offset ++ t))
              (sym (drop-drop most offset descs)
                ∙ ap (λ (t : ℕ). drop t (drop offset descs)) (sym e))
            ∙ ap (λ (t : List Bytes). some t) (take-drop numd (drop offset descs))),
      )

  module _ (positive : 0 < most) where
    joined-From :
        (n offset : ℕ)
        → offset ≡ 0 ⊎ (offset < length descs)
        → length descs - offset < n
        → From n offset
    joined-From zero offset h f = absurd (omega arith)
    joined-From (suc n) offset h f = elim (Bool-cases (leb (length descs - offset) most)) [
      | inl b ↦ last-From n offset h b
      | inr b ↦
          more-From n offset h b (joined-From n (most + offset) (inr (ground arith)) (ground arith))
    ]

-- A list of fewer than 2 ^ 32 descriptors that the server's storage has, first hint of the request
-- valid, at least one descriptor on a page: with one request more than there are descriptors at
-- most, the loop ends; the pages that the client's callback gets are the whole list in order, and
-- exactly the last one is marked as the last.
pub joined-fetch_descriptors :
    (most : ℕ) (parse_hint : Bytes → HintStatus) (sp_get_descriptors : Bytes → Bytes ⊎ List Bytes)
    (x : ℕ) (oid first : Bytes) (hs : List Bytes) (hint : Hint) (descs : List Bytes)
    → parse_hint first ≡ HintStatus.gtc_hint hint
    → sp_get_descriptors (x ∷ oid) ≡ inr descs
    → length descs < 2 ^ 32
    → 0 < most
    → (calls : List DescriptorsCall) × (fetch_descriptors most parse_hint sp_get_descriptors
          (suc (length descs))
          (x ∷ oid)
          (first ∷ hs)
          0
        ≡ some calls)
      × (joined calls ≡ some descs)
joined-fetch_descriptors most parse_hint sp_get_descriptors x oid first hs hint descs known storage
      fits positive =
    joined-From most parse_hint sp_get_descriptors x oid first hs hint descs known storage fits
      positive (suc (length descs)) 0 (inl refl) (omega arith)
