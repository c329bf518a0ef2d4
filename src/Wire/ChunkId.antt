-- ===== src/Wire/ChunkId.antt =====
-- The identifier that `get_chunk_id` reads behind the first header, and when it cannot fault.
use ditto.Prelude.{
  ℕ, suc, ◌+◌, ◌-◌, ◌≤◌, ◌<◌, ◌≡◌, ◌^◌, refl, ap, ◌∙◌, Option, none, some, inl, inr, List, [], ◌∷◌,
  ◌++◌, arith, length, take, drop, drop-append, length-drop, ltb, leb, true, ◌==◌, Bool-cases,
  Option-cases, ◌>>=◌,
}
use ditto.Prelude.Bytes.{Bytes}
use ditto.Wire.{
  bytes_at, be32, ntohl_at, search_header, rpc_header_in_stream, get_length_from_byte_stream,
  extract_chunk_response, get_chunk_id, DotChunkRes, min_payload_length, len_of_chunk_id,
  min_chunk_size,
}
use ditto.Wire.Response.{search_header-response, response, extract-response, bytes_at-id}
use ditto.Wire.Header.{
  search_header_total, search_header-append, NoHeaderByte, rpc_header_in_stream_sound,
}

get_length_total : (p : List ℕ) → 4 ≤ length p → (n : ℕ) × (get_length_from_byte_stream p ≡ some n)
unfolding get_length_from_byte_stream
get_length_total [] h = absurd (omega arith)
get_length_total (a ∷ []) h = absurd (omega arith)
get_length_total (a ∷ b ∷ []) h = absurd (omega arith)
get_length_total (a ∷ b ∷ c ∷ []) h = absurd (omega arith)
get_length_total (a ∷ b ∷ c ∷ e ∷ p) h = (_, refl)

be32_total : (m : ℕ) (p : List ℕ) → 4 ≤ length p → (n : ℕ) × (be32 m p ≡ some n)
unfolding be32
be32_total m [] h = absurd (omega arith)
be32_total m (a ∷ []) h = absurd (omega arith)
be32_total m (a ∷ b ∷ []) h = absurd (omega arith)
be32_total m (a ∷ b ∷ c ∷ []) h = absurd (omega arith)
be32_total m (a ∷ b ∷ c ∷ e ∷ p) h = (_, refl)

pub ntohl_at_total : (p : List ℕ) (i : ℕ) → i + 4 ≤ length p → (n : ℕ) × (ntohl_at p i ≡ some n)
unfolding ntohl_at
ntohl_at_total p i h = be32_total 0xff (drop i p) (omega (arith, length-drop i p))

pub bytes_at_within :
    (p : List ℕ) (i n : ℕ) → i + n ≤ length p → bytes_at p i n ≡ some (take n (drop i p))
unfolding bytes_at
bytes_at_within p i n h = let b : leb (i + n) (length p) ≡ true = ground arith in rw b refl

-- On 68 bytes the response's fields can be read; what is accepted has an identifier of 20 bytes and
-- data of at least 1024, and nothing relates the length of the data to the length of the record.
extract_total :
    (p : List ℕ) → 68 ≤ length p → (r : Option DotChunkRes) × (extract_chunk_response p ≡ some r)
unfolding extract_chunk_response
extract_total p h =
    let (n, a) = get_length_total p (omega arith) in
    let (m, b) = ntohl_at_total p 40 (omega arith) in
    let (k, c) = ntohl_at_total p 64 (omega arith) in
    elim (Bool-cases (ltb n min_payload_length)) [
      | inl short ↦ (none, rw (a, short))
      | inr long ↦ elim (Bool-cases (m == len_of_chunk_id)) [
        | inr other ↦ (none, rw (a, long, b, other))
        | inl id ↦ elim (Bool-cases (ltb k min_chunk_size)) [
          | inl small ↦ (none, rw (a, long, b, id, c, small))
          | inr big ↦ (
            some (record {
              chunk_id_base = 44;
              chunk_id_len = m;
              chunk_data_base = 68;
              chunk_data_len = k;
            }),
            rw (a, long, b, id, c, big),
          )
        ]
      ]
    ]

extract_id :
    (p : List ℕ) (r : DotChunkRes)
    → extract_chunk_response p ≡ some (some r)
    → (r.chunk_id_base ≡ 44)
      × (r.chunk_id_len ≡ 20)
      × (r.chunk_data_base ≡ 68)
      × (1024 ≤ r.chunk_data_len)
unfolding extract_chunk_response
extract_id p r e = ground arith

id_total :
    (p : List ℕ) (off : ℕ)
    → 68 ≤ length p
    → ◌>>=◌ {B = Option (Bytes × ℕ)} (bytes_at p 44 20) (λ id. some (some (id, off)))
      ≡ some (some (take 20 (drop 44 p), off))
unfolding bytes_at
id_total p off h = ground arith

-- When 68 bytes behind the payload can be read, looking for an identifier reads nothing outside the
-- memory.
get_chunk_id_total :
    (p : List ℕ) (len : ℕ)
    → len + 68 ≤ length p
    → (r : Option (Bytes × ℕ)) × (get_chunk_id p len ≡ some r)
unfolding get_chunk_id rpc_header_in_stream
get_chunk_id_total p len h =
    let (r, searched) = search_header_total p len 0 (omega arith) in
    elim (Option-cases r) [
      | inl nothing ↦ (none, rw (searched, nothing))
      | inr (off, found) ↦
          let header : rpc_header_in_stream p len ≡ some (some off) = searched ∙ ap some found in
          let room = (rpc_header_in_stream_sound p len off header).0 in
          let (x, extracted) = extract_total (drop off p) (omega (arith, length-drop off p)) in
          elim (Option-cases x) [
            | inl refused ↦ (none, rw (searched, found, extracted, refused))
            | inr (res, accepted) ↦
                let shape = extract_id (drop off p) res (extracted ∙ ap some accepted) in
                (
                  some (take 20 (drop 44 (drop off p)), off),
                  rw (searched, found, extracted, accepted, shape.0, shape.1)
                      (id_total (drop off p) off (omega (arith, length-drop off p))),
                )
          ]
    ]

module _ (front : List ℕ) (len xid hi lo : ℕ) (id bytes : Bytes) (tail : List ℕ)
    (short : len < 2 ^ 24) (long : 1048 ≤ len) (id_size : length id ≡ 20)
    (data_size : 1024 ≤ length bytes) (data_fits : length bytes < 2 ^ 32) where
  -- Behind bytes of which none is 0x80 stands a response, with a mark from 1048 to 2 ^ 24 - 1, an
  -- identifier of 20 bytes and at least 1024 bytes of data: a search that is long enough to reach
  -- it finds the response's identifier and the place where it starts.
  pub get_chunk_id-response :
      (size : ℕ)
      → NoHeaderByte front
      → length front < size
      → get_chunk_id (front ++ response len xid hi lo id bytes tail) size
        ≡ some (some (id, length front))
  unfolding get_chunk_id rpc_header_in_stream
  get_chunk_id-response size h l = rw (
    searched,
    reached,
    extract-response len xid hi lo id bytes tail short long id_size data_size data_fits,
    reached,
    bytes_at-id len xid hi lo id bytes tail short long id_size data_size data_fits,
  )
    where
      whole : List ℕ
      whole = response len xid hi lo id bytes tail

      e : size - length front ≡ suc (size - length front - 1)
      e = omega arith

      z : 0 + length front ≡ length front
      z = omega arith

      searched : search_header (front ++ whole) size 0 ≡ some (some (length front))
      searched =
          search_header-append front whole size 0 h (omega arith)
          ∙ rw (e, z)
              (search_header-response len xid hi lo id bytes tail (size - length front - 1)
                (length front))

      reached : drop (length front) (front ++ whole) ≡ whole
      reached = drop-append (length front) front whole refl
