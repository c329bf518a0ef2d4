-- ===== src/Xfer/Bitmap/Paging.antt =====
-- gtcd/xfer/xferPlugin_gtc.cc, GET_BITMAP: the server's page, the client's callback, and the two
-- together. `SEND_SIZE` and the storage plugin are parameters. Lengths and offsets are counted in
-- bits; the access `none` is one outside a buffer.
use ditto.Prelude.{
  ℕ, zero, suc, ◌*◌, ◌/◌, Bool, false, not, ◌&&◌, Option, none, some, List, [], ◌∷◌, ◌⊎◌, inl, inr,
  length, sub32, add32, ltb, leb, if◌then◌else◌, ◌>>=◌,
}
use ditto.Prelude.Bytes.{Bytes}
use ditto.Wire.{bytes_at}
use ditto.Xfer.Messages.{ErrMsg, GetBitmapRes}
use ditto.Xfer.Chunk.{ConnUse}
use ditto.Xfer.Bitmap.{bytes_for, convert_from_bitvec, convert_to_bitvec}

-- `maxbits`.
abbrev pub maxbits : ℕ → ℕ
maxbits send_size = send_size / 2 * 8

-- The page at an offset.
unfoldable pub bitmap_page : ℕ → ℕ → List Bool → Option GetBitmapRes
bitmap_page send_size offset bits =
    let bmp_ret = convert_from_bitvec bits in
    if ltb 0 offset && leb (length bmp_ret) offset
    then some (GetBitmapRes.errmsg ErrMsg.too_large_offset)
    else let totalbits = sub32 (length bits) offset in
      let sendbits = if ltb (maxbits send_size) totalbits then maxbits send_size else totalbits in
      (do
        page ← bytes_at bmp_ret (offset / 8) (bytes_for sendbits)
        some (
            GetBitmapRes.resok (record {
              offset = offset;
              count = sendbits;
              num_descs = length bits;
              bmp = page;
              end = not (ltb (maxbits send_size) totalbits);
            })))

unfoldable pub remote_get_bitmap_cb : ℕ → ℕ → Bytes ⊎ List Bool → Option GetBitmapRes
remote_get_bitmap_cb send_size offset (inl s) = some (GetBitmapRes.errmsg (ErrMsg.sp_failed s))
remote_get_bitmap_cb send_size offset (inr bits) = bitmap_page send_size offset bits

unfoldable pub remote_get_bitmap : ℕ → (Bytes → Bytes ⊎ List Bool) → Bytes → ℕ → Option GetBitmapRes
remote_get_bitmap send_size sp_get_bitmap [] offset = some (GetBitmapRes.errmsg ErrMsg.invalid_oid)
remote_get_bitmap send_size sp_get_bitmap (x ∷ xs) offset =
    remote_get_bitmap_cb send_size offset (sp_get_bitmap (x ∷ xs))

-- `bitvec::zsetsize`, and the loop that writes the bits of a page.
unfoldable pub zsetsize : ℕ → List Bool → List Bool
zsetsize zero bs = []
zsetsize (suc n) [] = false ∷ zsetsize n []
zsetsize (suc n) (b ∷ bs) = b ∷ zsetsize n bs

unfoldable pub write_bits : ℕ → List Bool → List Bool → List Bool
write_bits offset vs [] = []
write_bits zero [] (b ∷ bs) = b ∷ bs
write_bits zero (v ∷ vs) (b ∷ bs) = v ∷ write_bits zero vs bs
write_bits (suc k) vs (b ∷ bs) = b ∷ write_bits k vs bs

-- The client's next step: the callback with an error or the bitmap, or the next request.
pub data NextBitmap : Type 0 where
  call_error : ErrMsg → NextBitmap
  call_bitmap : List Bool → NextBitmap
  get_bitmap_int : ℕ → List Bool → NextBitmap

unfoldable pub get_bitmap_internal_cb :
    List Bool → Option GetBitmapRes → Option (ConnUse × NextBitmap)
get_bitmap_internal_cb bmp none = some (ConnUse.removed, NextBitmap.call_error ErrMsg.rpc_failure)
get_bitmap_internal_cb bmp (some (GetBitmapRes.errmsg m)) =
    some (ConnUse.untouched, NextBitmap.call_error (ErrMsg.returned_error m))
get_bitmap_internal_cb bmp (some (GetBitmapRes.resok r)) = do
  bmp_tmp ← convert_to_bitvec r.bmp r.count
  let bmp' = write_bits r.offset bmp_tmp (zsetsize (add32 r.count r.offset) bmp)
  some (
      if r.end
      then (ConnUse.released, NextBitmap.call_bitmap bmp')
      else (ConnUse.untouched, NextBitmap.get_bitmap_int (add32 r.count r.offset) bmp'))

-- The loop, on fuel: a request for each unit of it.
unfoldable pub fetch_bitmap :
    ℕ → (Bytes → Bytes ⊎ List Bool) → ℕ → Bytes → ℕ → List Bool → Option NextBitmap
fetch_bitmap send_size sp_get_bitmap zero oid offset bmp = none
fetch_bitmap send_size sp_get_bitmap (suc n) oid offset bmp = do
  res ← remote_get_bitmap send_size sp_get_bitmap oid offset
  (u, next) ← get_bitmap_internal_cb bmp (some res)
  elim next [
    | NextBitmap.call_error m ↦ some (NextBitmap.call_error m)
    | NextBitmap.call_bitmap b ↦ some (NextBitmap.call_bitmap b)
    | NextBitmap.get_bitmap_int offset' bmp' ↦
        fetch_bitmap send_size sp_get_bitmap n oid offset' bmp'
  ]
