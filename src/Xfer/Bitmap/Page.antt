-- ===== src/Xfer/Bitmap/Page.antt =====
-- The pages that the server of GET_BITMAP sends.
use ditto.Prelude.{
  ℕ, zero, suc, ◌+◌, ◌-◌, ◌*◌, ◌/◌, ◌%◌, ◌^◌, ◌≤◌, ◌<◌, ◌≡◌, refl, sym, Bool, true, false, ◌&&◌,
  some, List, [], ◌∷◌, ◌⊎◌, inl, inr, length, length-take, length-drop, take_all, take, drop, sub32,
  ltb, leb, ◌==◌, if◌then◌else◌, >>=_step, arith, get_elem?, Bool-cases, Succeeds, >>=-Succeeds,
}
use ditto.Prelude.Bytes.{Bytes}
use ditto.Wire.ChunkId.{bytes_at_within}
use ditto.Xfer.Messages.{ErrMsg, GetBitmapRes}
use ditto.Xfer.Bitmap.{bytes_for, convert_from_bitvec, unpack}
use ditto.Xfer.Bitmap.RoundTrip.{length-convert_from_bitvec}
use ditto.Xfer.Bitmap.Paging.{maxbits, bitmap_page, zsetsize, write_bits}

get_elem?_within : (p : List ℕ) (i : ℕ) → i < length p → (x : ℕ) × (get_elem? p i ≡ some x)
get_elem?_within [] i h = absurd (omega arith)
get_elem?_within (x ∷ xs) zero h = (x, refl)
get_elem?_within (x ∷ xs) (suc i) h = get_elem?_within xs i (omega arith)

pub unpack_within :
    (bmp : List ℕ) (n i : ℕ)
    → i + n ≤ 8 * length bmp
    → (bits : List Bool) × (unpack bmp n i ≡ some bits)
unfolding unpack
unpack_within bmp zero i h = ([], refl)
unpack_within bmp (suc n) i h =
    let (x, ex) = get_elem?_within bmp (i / 8) (omega arith) in
    let (bits, eb) = unpack_within bmp n (i + 1) (omega arith) in
    (_, >>=_step (get_elem? bmp (i / 8)) _ x ex (>>=_step (unpack bmp n (i + 1)) _ bits eb refl))

pub zsetsize-write_bits : (vs bs : List Bool) → write_bits 0 vs (zsetsize (length vs) bs) ≡ vs
unfolding zsetsize write_bits
zsetsize-write_bits [] bs = refl
zsetsize-write_bits (v ∷ vs) [] = λ i. v ∷ zsetsize-write_bits vs [] i
zsetsize-write_bits (v ∷ vs) (b ∷ bs) = λ i. v ∷ zsetsize-write_bits vs bs i

-- What the page has.
module _ (send_size : ℕ) (bits : List Bool) (fits : length bits < 2 ^ 32) where
  pub refused :
      (offset : ℕ)
      → 0 < offset
      → bytes_for (length bits) ≤ offset
      → bitmap_page send_size offset bits ≡ some (GetBitmapRes.errmsg ErrMsg.too_large_offset)
  unfolding bitmap_page
  refused offset h l =
      let b : (ltb 0 offset && leb (length (convert_from_bitvec bits)) offset) ≡ true =
        ground (arith, length-convert_from_bitvec bits fits) in
      rw b refl

  accepts :
      (offset : ℕ)
      → offset ≡ 0 ⊎ (offset < bytes_for (length bits))
      → (ltb 0 offset && leb (length (convert_from_bitvec bits)) offset) ≡ false
  accepts offset (inl e) = ground (arith, e)
  accepts offset (inr l) = ground (arith, length-convert_from_bitvec bits fits)

  within : (offset : ℕ) → offset ≡ 0 ⊎ (offset < bytes_for (length bits)) → offset ≤ length bits
  unfolding bytes_for
  within offset (inl e) = omega (arith, e)
  within offset (inr l) = ground arith

  pub full_page :
      (offset : ℕ)
      → offset ≡ 0 ⊎ (offset < bytes_for (length bits))
      → maxbits send_size < length bits - offset
      → (page : Bytes) × (length page ≡ send_size / 2)
        × (bitmap_page send_size offset bits
            ≡ some (
                GetBitmapRes.resok (record {
                  offset = offset;
                  count = maxbits send_size;
                  num_descs = length bits;
                  bmp = page;
                  end = false;
                })))
  unfolding bitmap_page bytes_for
  full_page offset h l =
      let k : ℕ = send_size / 2 in
      let t : sub32 (length bits) offset ≡ length bits - offset = omega (arith, within offset h) in
      let b : ltb (k * 8) (length bits - offset) ≡ true = ground arith in
      let r : k * 8 / 8 + (if k * 8 % 8 == 0 then 0 else 1) ≡ k = ground arith in
      let room : offset / 8 + k ≤ length (convert_from_bitvec bits) =
        ground (arith, length-convert_from_bitvec bits fits) in
      (
        take k (drop (offset / 8) (convert_from_bitvec bits)),
        omega (
          arith,
          length-take k (drop (offset / 8) (convert_from_bitvec bits)),
          length-drop (offset / 8) (convert_from_bitvec bits),
        ),
        rw
            (
              accepts offset h,
              t,
              b,
              r,
              bytes_at_within (convert_from_bitvec bits) (offset / 8) k room,
            )
            refl,
      )

  pub only_page :
      length bits ≤ maxbits send_size
      → bitmap_page send_size 0 bits
        ≡ some (
            GetBitmapRes.resok (record {
              offset = 0;
              count = length bits;
              num_descs = length bits;
              bmp = convert_from_bitvec bits;
              end = true;
            }))
  unfolding bitmap_page bytes_for
  only_page l =
      let t : sub32 (length bits) 0 ≡ length bits = omega arith in
      let b : ltb (send_size / 2 * 8) (length bits) ≡ false = ground arith in
      let r : length bits / 8 + (if length bits % 8 == 0 then 0 else 1)
          ≡ length (convert_from_bitvec bits) =
        sym (length-convert_from_bitvec bits fits) in
      rw
        (
          t,
          b,
          r,
          bytes_at_within (convert_from_bitvec bits) 0 (length (convert_from_bitvec bits))
              (omega arith),
          take_all (length (convert_from_bitvec bits)) (convert_from_bitvec bits) (omega arith),
        )
        refl

  not_past :
      (offset : ℕ)
      → (ltb 0 offset && leb (length (convert_from_bitvec bits)) offset) ≡ false
      → offset ≤ length bits
  unfolding bytes_for
  not_past offset b = ground (arith, length-convert_from_bitvec bits fits)

  sent_bytes :
      (total offset n : ℕ)
      → n ≤ total - offset
      → offset ≤ total
      → offset / 8 + bytes_for n ≤ bytes_for total
  unfolding bytes_for
  sent_bytes total offset n h l = ground arith

  pub page_total : (offset : ℕ) → Succeeds (bitmap_page send_size offset bits)
  unfolding bitmap_page
  page_total offset =
      elim (Bool-cases (ltb 0 offset && leb (length (convert_from_bitvec bits)) offset)) [
        | inl b ↦ rw b tt
        | inr b ↦
            let t : sub32 (length bits) offset ≡ length bits - offset =
              omega (arith, not_past offset b) in
            rw (b, t)
              (>>=-Succeeds _ _ _
                (bytes_at_within (convert_from_bitvec bits) (offset / 8) _ (
                  omega (
                    arith,
                    length-convert_from_bitvec bits fits,
                    sent_bytes (length bits) offset
                        (if ltb (maxbits send_size) (length bits - offset)
                          then maxbits send_size
                          else length bits - offset)
                        (ground arith) (not_past offset b),
                  )))
                tt)
      ]
