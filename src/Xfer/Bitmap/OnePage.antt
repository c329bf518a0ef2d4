-- ===== src/Xfer/Bitmap/OnePage.antt =====
-- Which bitmaps the loop of GET_BITMAP transfers.
use ditto.Prelude.{
  ℕ, zero, suc, ◌+◌, ◌-◌, ◌*◌, ◌/◌, ◌^◌, ◌≤◌, ◌<◌, ◌≡◌, refl, ◌∙◌, Bool, some, List, [], ◌∷◌, ◌⊎◌,
  inl, inr, length, add32, ltb, true, leb, if◌then◌else◌, arith, Bool-cases, Succeeds,
}
use ditto.Prelude.Bytes.{Bytes}
use ditto.Xfer.Messages.{ErrMsg}
use ditto.Xfer.Bitmap.{bytes_for, convert_to_bitvec}
use ditto.Xfer.Bitmap.RoundTrip.{convert_to-convert_from}
use ditto.Xfer.Bitmap.Paging.{
  maxbits, remote_get_bitmap_cb, remote_get_bitmap, zsetsize, write_bits, NextBitmap,
  get_bitmap_internal_cb, fetch_bitmap,
}
use ditto.Xfer.Bitmap.Page.{
  unpack_within, zsetsize-write_bits, refused, full_page, only_page, page_total,
}

module _ (send_size : ℕ) (sp_get_bitmap : Bytes → Bytes ⊎ List Bool) (x : ℕ) (oid : Bytes)
    (bits : List Bool) (storage : sp_get_bitmap (x ∷ oid) ≡ inr bits) (fits : length bits < 2 ^ 32)
    (int_page : maxbits send_size < 2 ^ 31) where
  fetch_fits :
      (n : ℕ)
      → length bits ≤ maxbits send_size
      → fetch_bitmap send_size sp_get_bitmap (suc n) (x ∷ oid) 0 []
        ≡ some (NextBitmap.call_bitmap bits)
  unfolding fetch_bitmap remote_get_bitmap remote_get_bitmap_cb get_bitmap_internal_cb
  fetch_fits n l =
      let e : add32 (length bits) 0 ≡ length bits = omega arith in
      rw
        (
          storage,
          only_page send_size bits fits l,
          convert_to-convert_from bits (omega arith),
          e,
          zsetsize-write_bits bits [],
        )
        refl

  fetch_more :
      (n offset : ℕ) (bmp : List Bool)
      → offset ≡ 0 ⊎ (offset < bytes_for (length bits))
      → maxbits send_size < length bits - offset
      → (bmp' : List Bool) × (fetch_bitmap send_size sp_get_bitmap (suc n) (x ∷ oid) offset bmp
          ≡ fetch_bitmap send_size sp_get_bitmap n (x ∷ oid) (maxbits send_size + offset) bmp')
  unfolding fetch_bitmap remote_get_bitmap remote_get_bitmap_cb get_bitmap_internal_cb
      convert_to_bitvec
  fetch_more n offset bmp h l =
      let (page, len, e) = full_page send_size bits fits offset h l in
      let (tmp, et) = unpack_within page (send_size / 2 * 8) 0 (omega (arith, len)) in
      let int_count : ltb (send_size / 2 * 8) (2 ^ 31) ≡ true = ground arith in
      let a : add32 (send_size / 2 * 8) offset ≡ send_size / 2 * 8 + offset = omega arith in
      (
        write_bits offset tmp (zsetsize (send_size / 2 * 8 + offset) bmp),
        rw (storage, e, int_count, et, a) refl,
      )

  module _ (big : maxbits send_size < length bits) (positive : 0 < maxbits send_size) where
    refused_from :
        (fuel offset : ℕ) (bmp : List Bool)
        → maxbits send_size ≤ offset
        → offset < length bits
        → length bits ≤ fuel + offset
        → fetch_bitmap send_size sp_get_bitmap fuel (x ∷ oid) offset bmp
          ≡ some (NextBitmap.call_error (ErrMsg.returned_error ErrMsg.too_large_offset))
    unfolding fetch_bitmap remote_get_bitmap remote_get_bitmap_cb get_bitmap_internal_cb bytes_for
    refused_from zero offset bmp h l f = absurd (omega arith)
    refused_from (suc n) offset bmp h l f =
        elim (Bool-cases (leb (bytes_for (length bits)) offset)) [
          | inl b ↦
              rw (storage, refused send_size bits fits offset (omega arith) (ground arith)) refl
          | inr b ↦
              let early : offset < bytes_for (length bits) = ground arith in
              let (bmp', e) = fetch_more n offset bmp (inr early) (ground arith) in
              e
              ∙ refused_from n (maxbits send_size + offset) bmp' (omega arith) (ground arith)
                  (omega arith)
        ]

    fetch_refused :
        (n : ℕ)
        → length bits ≤ suc n
        → fetch_bitmap send_size sp_get_bitmap (suc n) (x ∷ oid) 0 []
          ≡ some (NextBitmap.call_error (ErrMsg.returned_error ErrMsg.too_large_offset))
    fetch_refused n f =
        let (bmp', e) = fetch_more n 0 [] (inl refl) (omega arith) in
        e ∙ refused_from n (maxbits send_size + 0) bmp' (omega arith) (omega arith) (omega arith)

-- A bitmap of fewer than 2 ^ 32 bits that the server's storage has, with pages of at least two
-- bytes and fewer than 2 ^ 31 bits, and one request more than there are bits at most: the loop of
-- client and server ends; with exactly the bitmap if it fits in one page, and with the error for a
-- too large offset if it does not.
pub fetch_bitmap_lem :
    (send_size : ℕ) (sp_get_bitmap : Bytes → Bytes ⊎ List Bool) (x : ℕ) (oid : Bytes)
    (bits : List Bool) (n : ℕ)
    → sp_get_bitmap (x ∷ oid) ≡ inr bits
    → length bits < 2 ^ 32
    → 2 ≤ send_size
    → maxbits send_size < 2 ^ 31
    → length bits ≤ suc n
    → fetch_bitmap send_size sp_get_bitmap (suc n) (x ∷ oid) 0 []
      ≡ some (
          if leb (length bits) (maxbits send_size)
          then NextBitmap.call_bitmap bits
          else NextBitmap.call_error (ErrMsg.returned_error ErrMsg.too_large_offset))
fetch_bitmap_lem send_size sp_get_bitmap x oid bits n storage fits positive int_page f =
    elim (Bool-cases (leb (length bits) (maxbits send_size))) [
      | inl b ↦
          rw b
            (fetch_fits send_size sp_get_bitmap x oid bits storage fits int_page n (ground arith))
      | inr b ↦ rw b (
          fetch_refused send_size sp_get_bitmap x oid bits storage fits int_page (ground arith)
            (omega arith) n f)
    ]

-- A request for a bitmap with any identifier and offset, where the storage has a bitmap of fewer
-- than 2 ^ 32 bits or an error: the server replies, and so reads nothing outside the packed bytes.
pub remote_get_bitmap_total :
    (send_size : ℕ) (sp_get_bitmap : Bytes → Bytes ⊎ List Bool) (oid : Bytes) (offset : ℕ)
    → ((bits : List Bool) → sp_get_bitmap oid ≡ inr bits → length bits < 2 ^ 32)
    → Succeeds (remote_get_bitmap send_size sp_get_bitmap oid offset)
unfolding remote_get_bitmap remote_get_bitmap_cb
remote_get_bitmap_total send_size sp_get_bitmap [] offset fits = tt
remote_get_bitmap_total send_size sp_get_bitmap (x ∷ oid) offset fits =
    answered (sp_get_bitmap (x ∷ oid)) fits
  where
    answered :
        (a : Bytes ⊎ List Bool)
        → ((bits : List Bool) → a ≡ inr bits → length bits < 2 ^ 32)
        → Succeeds (remote_get_bitmap_cb send_size offset a)
    answered (inl m) g = tt
    answered (inr bits) g = page_total send_size bits (g bits refl) offset
