-- ===== src/Wire.antt =====
-- src/sniffer/SniffTcp.cc, the functions that read a DOT chunk response out of a byte stream.
-- A pointer is the list of the bytes from there to the end of the memory that it points into: a read
-- past the end is a fault, `none`. So a length that is passed with a pointer can be less than the
-- list's, and the bytes behind it can be read.
pub mod Response
pub mod Bounds
pub mod Header
pub mod ChunkId
use ditto.Prelude.{
  ℕ, zero, suc, ◌+◌, ◌-◌, ◌*◌, Bool, true, false, Option, none, some, List, [], ◌∷◌, bit_and,
  bit_or, ltb, ◌==◌, if◌then◌else◌, take, drop, length, get_elem?, ◌>>=◌, not, leb,
}
use ditto.Prelude.Bytes.{Bytes, bytes_eq}

-- The macros of SniffTcp.cc and SniffTcp.h.
abbrev dot_offset_field_from_rpc_header : ℕ
dot_offset_field_from_rpc_header = 32

abbrev dot_offset_field_len : ℕ
dot_offset_field_len = 8

abbrev pub rpc_header : ℕ
rpc_header = 0x80

abbrev chunk_id_len_field : ℕ
chunk_id_len_field = 4

abbrev pub len_of_chunk_id : ℕ
len_of_chunk_id = 20

abbrev chunk_len_field : ℕ
chunk_len_field = 4

abbrev rpc_header_len : ℕ
rpc_header_len = 28

abbrev pub min_chunk_size : ℕ
min_chunk_size = 0x400

abbrev pub min_payload_length : ℕ
min_payload_length = min_chunk_size + rpc_header_len - 4

-- `mask`: 24 bytes, all zero but the fourth and the last.
abbrev pub mask : Bytes
mask =
    0 ∷ 0 ∷ 0 ∷ 1 ∷ 0 ∷ 0 ∷ 0 ∷ 0 ∷ 0 ∷ 0 ∷ 0 ∷ 0 ∷ 0 ∷ 0 ∷ 0 ∷ 0 ∷ 0 ∷ 0 ∷ 0 ∷ 0 ∷ 0 ∷ 0 ∷ 0 ∷ 1
    ∷ []

abbrev pub mask_size_in_bytes : ℕ
mask_size_in_bytes = 24

-- The `n` bytes from offset `i` on.
unfoldable pub bytes_at : List ℕ → ℕ → ℕ → Option Bytes
bytes_at p i n = if leb (i + n) (length p) then some (take n (drop i p)) else none

-- `(i << 8) | (b & 0xFF)`.
abbrev shift_in : ℕ → ℕ → ℕ
shift_in i b = bit_or (i * 256) (bit_and b 0xff)

pub be32 : ℕ → List ℕ → Option ℕ
be32 m (a ∷ b ∷ c ∷ e ∷ rest) = some (shift_in (shift_in (shift_in (bit_and a m) b) c) e)
be32 m _ = none

pub get_length_from_byte_stream : List ℕ → Option ℕ
unfolding be32
get_length_from_byte_stream p = be32 0x7f p

-- `ntohl (*(unsigned int *) (p + i))`.
unfoldable pub ntohl_at : List ℕ → ℕ → Option ℕ
unfolding be32
ntohl_at p i = be32 0xff (drop i p)

-- `memcmp (p, mask, mask_size_in_bytes) == 0`.
unfoldable pub at_mask : List ℕ → Option Bool
unfolding bytes_at
at_mask p = do bs ← bytes_at p 0 mask_size_in_bytes; some (bytes_eq bs mask)

-- The loop: `n` rounds are left, and `p` points to byte `i`.
unfoldable pub search_header : List ℕ → ℕ → ℕ → Option (Option ℕ)
search_header p zero i = some none
search_header [] (suc n) i = none
search_header (c ∷ p) (suc n) i =
    let rest = search_header p n (i + 1) in
    if c == rpc_header
    then (do hit ← at_mask (drop 8 (c ∷ p)); (if hit then some (some i) else rest))
    else rest

-- The offset of the first header, in place of the pointer; `none` inside is NULL.
unfoldable pub rpc_header_in_stream : List ℕ → ℕ → Option (Option ℕ)
unfolding search_header
rpc_header_in_stream payload len = search_header payload len 0

-- The pointers of `dot_chunk_res_t` are offsets from the RPC header.
pub record DotChunkRes : Type 0 where
  pub chunk_id_base : ℕ
  pub chunk_id_len : ℕ
  pub chunk_data_base : ℕ
  pub chunk_data_len : ℕ

-- `extract_chunk_response (const u_char *, dot_chunk_res_t *)`; `none` inside is `false`.
pub extract_chunk_response : List ℕ → Option (Option DotChunkRes)
extract_chunk_response p =
    let tmp = dot_offset_field_from_rpc_header + dot_offset_field_len in
    do
      payload_length ← get_length_from_byte_stream p
      (if ltb payload_length min_payload_length then some none else do
        id_len ← ntohl_at p tmp
        (if not (id_len == len_of_chunk_id) then some none else do
          data_len ← ntohl_at p (tmp + chunk_id_len_field + len_of_chunk_id)
          (if ltb data_len min_chunk_size
              then some none
              else some (
                  some (record {
                    chunk_id_base = tmp + chunk_id_len_field;
                    chunk_id_len = id_len;
                    chunk_data_base = tmp + chunk_id_len_field + len_of_chunk_id + chunk_len_field;
                    chunk_data_len = data_len;
                  })))))

-- The identifier and the offset of its RPC header; `none` inside is NULL. Its tests are those of
-- `extract_chunk_response`, which the source repeats.
pub get_chunk_id : List ℕ → ℕ → Option (Option (Bytes × ℕ))
get_chunk_id payload len = do
  header ← rpc_header_in_stream payload len
  elim header [
    | none ↦ some none
    | some rpc_offset ↦ do
      found ← extract_chunk_response (drop rpc_offset payload)
      elim found [
        | none ↦ some none
        | some res ↦ do
          id ← bytes_at (drop rpc_offset payload) res.chunk_id_base res.chunk_id_len
          some (some (id, rpc_offset))
      ]
  ]
