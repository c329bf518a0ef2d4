-- ===== src/Wire/Response.antt =====
-- The layout of a DOT chunk response, and what the readers make of one.
use ditto.Prelude.{
  true, ℕ, suc, ◌+◌, ◌*◌, ◌/◌, ◌%◌, ◌^◌, ◌≤◌, ◌<◌, ◌≡◌, refl, ap, ◌∙◌, sym, some, List, [], ◌∷◌,
  ◌++◌, arith, length, length-append, drop, drop-append, take-append, bit_and,
}
use mathlib.Core.List.{append_assoc}
use ditto.Prelude.Bytes.{Bytes, bytes_eq}
use ditto.Prelude.Bits.{and_low7, and_low8, or_shift8}
use ditto.Wire.{
  search_header, at_mask, shift_in, be32, bytes_at, ntohl_at, get_length_from_byte_stream,
  DotChunkRes, extract_chunk_response,
}

-- A 32-bit number in network byte order.
abbrev pub be4 : ℕ → List ℕ → List ℕ
be4 n rest = (n / 2 ^ 24 % 256) ∷ (n / 2 ^ 16 % 256) ∷ (n / 2 ^ 8 % 256) ∷ (n % 256) ∷ rest

shift_in_lem : (i b : ℕ) → b < 256 → shift_in i b ≡ i * 256 + b
shift_in_lem i b h = rw (and_low8 b) (let e : b % 256 ≡ b = omega arith in rw e (or_shift8 i b h))

be32_lem :
    (m a b c e : ℕ) (rest : List ℕ)
    → b < 256
    → c < 256
    → e < 256
    → be32 m (a ∷ b ∷ c ∷ e ∷ rest) ≡ some (((bit_and a m * 256 + b) * 256 + c) * 256 + e)
unfolding be32
be32_lem m a b c e rest hb hc he =
    rw (shift_in_lem _ b hb, shift_in_lem _ c hc, shift_in_lem _ e he)

be32-be4 : (n : ℕ) (rest : List ℕ) → n < 2 ^ 32 → be32 0xff (be4 n rest) ≡ some n
be32-be4 n rest h =
    be32_lem 0xff (n / 2 ^ 24 % 256) (n / 2 ^ 16 % 256) (n / 2 ^ 8 % 256) (n % 256) rest
      (omega arith) (omega arith) (omega arith)
    ∙ ap some (omega (arith, and_low8 (n / 2 ^ 24 % 256)))

-- For bytes below 256: the length is the big-endian number of the four bytes, less the top bit of
-- the first.
pub get_length_lem :
    (a b c e : ℕ) (rest : List ℕ)
    → b < 256
    → c < 256
    → e < 256
    → get_length_from_byte_stream (a ∷ b ∷ c ∷ e ∷ rest)
      ≡ some (((a % 128 * 256 + b) * 256 + c) * 256 + e)
unfolding get_length_from_byte_stream
get_length_lem a b c e rest hb hc he = be32_lem 0x7f a b c e rest hb hc he ∙ rw (and_low7 a)

-- A response: the record mark with the length of what follows, the transaction, the 24 bytes of
-- `mask`, the offset, the identifier and the data, each behind its length, and what ends the record.
abbrev pub from_mark : Bytes → Bytes → List ℕ → List ℕ
from_mark id bytes tail = be4 20 (id ++ be4 (length bytes) (bytes ++ tail))

abbrev pub behind_mask : ℕ → ℕ → List ℕ → List ℕ
behind_mask hi lo rest =
    0
    ∷ 0
    ∷ 0
    ∷ 1
    ∷ 0
    ∷ 0
    ∷ 0
    ∷ 0
    ∷ 0
    ∷ 0
    ∷ 0
    ∷ 0
    ∷ 0
    ∷ 0
    ∷ 0
    ∷ 0
    ∷ 0
    ∷ 0
    ∷ 0
    ∷ 0
    ∷ 0
    ∷ 0
    ∷ 0
    ∷ 1
    ∷ be4 hi (be4 lo rest)

unfoldable pub response : ℕ → ℕ → ℕ → ℕ → Bytes → Bytes → List ℕ → List ℕ
response len xid hi lo id bytes tail =
    0x80
    ∷ (len / 2 ^ 16 % 256)
    ∷ (len / 2 ^ 8 % 256)
    ∷ (len % 256)
    ∷ be4 xid (behind_mask hi lo (from_mark id bytes tail))

-- Where the fields of a response stand.
abbrev pub found_at : ℕ → DotChunkRes
found_at size = record {
  chunk_id_base = 44;
  chunk_id_len = 20;
  chunk_data_base = 68;
  chunk_data_len = size;
}

-- The search stops at a response.
pub search_header-response :
    (len xid hi lo : ℕ) (id bytes : Bytes) (tail : List ℕ) (n i : ℕ)
    → search_header (response len xid hi lo id bytes tail) (suc n) i ≡ some (some i)
unfolding response search_header at_mask bytes_at bytes_eq
search_header-response len xid hi lo id bytes tail n i = ground arith

module _ (len xid hi lo : ℕ) (id bytes : Bytes) (tail : List ℕ) (short : len < 2 ^ 24)
    (long : 1048 ≤ len) (id_size : length id ≡ 20) (data_size : 1024 ≤ length bytes)
    (data_fits : length bytes < 2 ^ 32) where
  pub mark_length : get_length_from_byte_stream (response len xid hi lo id bytes tail) ≡ some len
  unfolding response
  mark_length =
      get_length_lem 0x80 (len / 2 ^ 16 % 256) (len / 2 ^ 8 % 256) (len % 256)
        (be4 xid (behind_mask hi lo (from_mark id bytes tail))) (omega arith) (omega arith)
        (omega arith)
      ∙ ap some (omega arith)

  id_length : ntohl_at (response len xid hi lo id bytes tail) 40 ≡ some 20
  unfolding response ntohl_at
  id_length = refl

  behind_id : drop 64 (response len xid hi lo id bytes tail) ≡ be4 (length bytes) (bytes ++ tail)
  unfolding response
  behind_id = drop-append 20 id (be4 (length bytes) (bytes ++ tail)) id_size

  data_length : ntohl_at (response len xid hi lo id bytes tail) 64 ≡ some (length bytes)
  unfolding ntohl_at
  data_length = rw behind_id (be32-be4 (length bytes) (bytes ++ tail) data_fits)

  -- A response with a mark from 1048 to 2 ^ 24 - 1, an identifier of 20 bytes and at least 1024
  -- bytes of data is accepted, and its fields are found where they were written.
  pub extract-response :
      extract_chunk_response (response len xid hi lo id bytes tail)
      ≡ some (some (found_at (length bytes)))
  unfolding extract_chunk_response
  extract-response = rw (mark_length, id_length, data_length) (ground arith)

  pub bytes_at-id : bytes_at (response len xid hi lo id bytes tail) 44 20 ≡ some id
  unfolding bytes_at response
  bytes_at-id = ground (
    arith,
    length-append id (be4 (length bytes) (bytes ++ tail)),
    take-append 20 id (be4 (length bytes) (bytes ++ tail)) id_size,
  )

  behind_data_length : drop 68 (response len xid hi lo id bytes tail) ≡ bytes ++ tail
  unfolding response
  behind_data_length =
      ap (drop 24) (sym (append_assoc id (be4 (length bytes) []) (bytes ++ tail)))
      ∙ drop-append 24 (id ++ be4 (length bytes) []) (bytes ++ tail)
          (omega (arith, length-append id (be4 (length bytes) [])))

  pub length-response :
      length (response len xid hi lo id bytes tail) ≡ 68 + length bytes + length tail
  unfolding response
  length-response =
      omega (arith, length-append id (be4 (length bytes) (bytes ++ tail)), length-append bytes tail)

  pub bytes_at-data : bytes_at (response len xid hi lo id bytes tail) 68 (length bytes) ≡ some bytes
  unfolding bytes_at
  bytes_at-data =
      rw (behind_data_length, take-append (length bytes) bytes tail refl)
        (ground (arith, length-response))

-- What follows a response is more of what follows its data.
pub response-append :
    (len xid hi lo : ℕ) (id bytes : Bytes) (tail rest : List ℕ)
    → response len xid hi lo id bytes tail ++ rest ≡ response len xid hi lo id bytes (tail ++ rest)
unfolding response
response-append len xid hi lo id bytes tail rest =
    ap
      (λ (t : List ℕ).
        0x80
        ∷ (len / 2 ^ 16 % 256)
        ∷ (len / 2 ^ 8 % 256)
        ∷ (len % 256)
        ∷ be4 xid (behind_mask hi lo (be4 20 t)))
      (append_assoc id (be4 (length bytes) (bytes ++ tail)) rest
        ∙ ap (λ (t : List ℕ). id ++ be4 (length bytes) t) (append_assoc bytes tail rest))

-- The mask stands eight bytes behind the start of a response.
pub at_mask-response :
    (len xid hi lo : ℕ) (id bytes : Bytes) (tail : List ℕ)
    → at_mask (drop 8 (response len xid hi lo id bytes tail)) ≡ some true
unfolding response at_mask bytes_at bytes_eq
at_mask-response len xid hi lo id bytes tail = ground arith
