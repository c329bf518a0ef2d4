-- ===== src/Xfer/Descriptors.antt =====
-- gtcd/xfer/xferPlugin_gtc.cc, GET_DESCRIPTORS: the server's page, the client's callback, and the
-- two together. `SEND_SIZE`, `EVP_MAX_MD_SIZE`, the hints' reader and the storage plugin are
-- parameters; a descriptor is a byte string. `none` is an access outside a vector, or an exit.
pub mod Joined
use ditto.Prelude.{
  ℕ, zero, suc, ◌+◌, ◌-◌, ◌*◌, ◌/◌, ◌%◌, ◌^◌, min, Bool, true, false, not, ◌&&◌, Option, none, some,
  List, [], ◌∷◌, ◌⊎◌, inl, inr, length, add32, ltb, leb, get_elem?, if◌then◌else◌, ◌>>=◌,
}
use ditto.Prelude.Bytes.{Bytes}
use ditto.Xfer.Messages.{ErrMsg, GetDescriptorsRes, GetDescriptorsResOk}
use ditto.Xfer.Chunk.{ConnUse, HintStatus}

-- The loops that copy the descriptors from `i` on, at both ends.
pub copy_descriptors : List Bytes → ℕ → ℕ → Option (List Bytes)
copy_descriptors descs i zero = some []
copy_descriptors descs i (suc n) = do
  d ← get_elem? descs i
  ds ← copy_descriptors descs (i + 1) n
  some (d ∷ ds)

-- `maxd`.
unfoldable pub maxd : ℕ → ℕ → ℕ
maxd send_size evp_max_md_size = send_size * 2 % 2 ^ 32 / (evp_max_md_size * 5)

module _ (most : ℕ) where
  pub remote_get_descriptors_cb : ℕ → Bytes ⊎ List Bytes → Option GetDescriptorsRes
  remote_get_descriptors_cb offset (inl s) = some (GetDescriptorsRes.errmsg (ErrMsg.sp_failed s))
  remote_get_descriptors_cb offset (inr descs) =
      if ltb 0 offset && leb (length descs) offset
      then some (GetDescriptorsRes.errmsg ErrMsg.too_large_offset)
      else let numd = min ((length descs - offset) % 2 ^ 32) most in
        (do
          page ← copy_descriptors descs offset numd
          some (
              GetDescriptorsRes.resok (record {
                offset = offset;
                count = numd;
                descriptors = page;
                end = leb (length descs - offset) most;
              })))

  pub remote_get_descriptors :
      (Bytes → HintStatus)
      → (Bytes → Bytes ⊎ List Bytes)
      → Bytes
      → ℕ
      → List Bytes
      → Option GetDescriptorsRes
  remote_get_descriptors parse_hint sp_get_descriptors [] offset hints =
      some (GetDescriptorsRes.errmsg ErrMsg.invalid_oid)
  remote_get_descriptors parse_hint sp_get_descriptors (x ∷ xs) offset hints = do
    first ← elim hints [ [] ↦ none | h ∷ hs ↦ some h ]
    elim (parse_hint first) [
      | HintStatus.bad_hint ↦ none
      | HintStatus.other_hint ↦ remote_get_descriptors_cb offset (sp_get_descriptors (x ∷ xs))
      | HintStatus.gtc_hint res ↦ remote_get_descriptors_cb offset (sp_get_descriptors (x ∷ xs))
    ]

-- A call of the client's callback: an error, or a page and whether it is the last one.
pub data DescriptorsCall : Type 0 where
  call_error : ErrMsg → DescriptorsCall
  call_page : List Bytes → Bool → DescriptorsCall

-- `get_desc_internal_cb`: what becomes of the connection, the offset of the next request if there
-- is one, and the call.
pub get_desc_internal_cb : Option GetDescriptorsRes → Option (ConnUse × Option ℕ × DescriptorsCall)
get_desc_internal_cb none =
    some (ConnUse.removed, none, DescriptorsCall.call_error ErrMsg.rpc_failure)
get_desc_internal_cb (some (GetDescriptorsRes.errmsg m)) =
    some (ConnUse.untouched, none, DescriptorsCall.call_error (ErrMsg.returned_error m))
get_desc_internal_cb (some (GetDescriptorsRes.resok r)) = do
  descptr ← copy_descriptors r.descriptors 0 r.count
  some (
      if not r.end
      then (
        ConnUse.untouched,
        some (add32 r.count r.offset),
        DescriptorsCall.call_page descptr r.end,
      )
      else (ConnUse.released, none, DescriptorsCall.call_page descptr r.end))

-- The loop, on fuel: the calls of the client's callback, one for each request.
module _ (most : ℕ) (parse_hint : Bytes → HintStatus)
    (sp_get_descriptors : Bytes → Bytes ⊎ List Bytes) where
  pub fetch_descriptors : ℕ → Bytes → List Bytes → ℕ → Option (List DescriptorsCall)
  fetch_descriptors zero oid hints offset = none
  fetch_descriptors (suc n) oid hints offset = do
    res ← remote_get_descriptors most parse_hint sp_get_descriptors oid offset hints
    (u, next, call) ← get_desc_internal_cb (some res)
    elim next [
      | none ↦ some (call ∷ [])
      | some offset' ↦ do calls ← fetch_descriptors n oid hints offset'; some (call ∷ calls)
    ]
