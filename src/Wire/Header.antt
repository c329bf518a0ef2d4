-- ===== src/Wire/Header.antt =====
-- The search for an RPC header, and for the identifier behind it.
use ditto.Prelude.{
  ℕ, zero, suc, ◌+◌, ◌-◌, ◌≤◌, ◌<◌, ◌≡◌, refl, Option, none, some, true, false, List, [], ◌∷◌, ◌++◌,
  arith, length, ◌≢◌, take, drop, get_elem?, length-drop, All, inl, inr, ◌==◌, Bool-cases,
  Option-cases,
}
use ditto.Prelude.Bytes.{bytes_eq}
use ditto.Wire.{mask, at_mask, rpc_header, search_header, rpc_header_in_stream}

at_mask_total : (p : List ℕ) → 24 ≤ length p → at_mask p ≡ some (bytes_eq (take 24 p) mask)
unfolding at_mask
at_mask_total p h = ground arith

-- With 32 bytes behind the searched part that can be read, the search does not fault.
pub search_header_total :
    (p : List ℕ) (n i : ℕ) → n + 32 ≤ length p → (r : Option ℕ) × (search_header p n i ≡ some r)
unfolding search_header
search_header_total p zero i h = (none, refl)
search_header_total [] (suc n) i h = absurd (omega arith)
search_header_total (c ∷ p) (suc n) i h =
    let (r, later) = search_header_total p n (i + 1) (omega arith) in
    let readable = at_mask_total (drop 7 p) (omega (arith, length-drop 7 p)) in
    elim (Bool-cases (c == rpc_header)) [
      | inl hit ↦ elim (Bool-cases (bytes_eq (take 24 (drop 7 p)) mask)) [
        | inl same ↦ (some i, rw (hit, readable, same))
        | inr other ↦ (r, rw (hit, readable, other) later)
      ]
      | inr miss ↦ (r, rw miss later)
    ]

-- At the start of `p` stands the byte of a header, and the mask eight bytes on.
pub record IsHeader (p : List ℕ) : Type 0 where
  pub first : get_elem? p 0 ≡ some rpc_header
  pub masked : at_mask (drop 8 p) ≡ some true

search_header_sound :
    (p : List ℕ) (n i r : ℕ)
    → search_header p n i ≡ some (some r)
    → (k : ℕ) × (r ≡ i + k) × (k < n) × IsHeader (drop k p)
unfolding search_header
search_header_sound p zero i r e = cc
search_header_sound [] (suc n) i r e = cc
search_header_sound (c ∷ p) (suc n) i r e =
    let later =
      λ (e' : search_header p n (i + 1) ≡ some (some r)). search_header_sound p n (i + 1) r e' in
    elim (Bool-cases (c == rpc_header)) [
      | inl hit ↦ elim (Option-cases (at_mask (drop 7 p))) [
        | inl out ↦ absurd (ground arith)
        | inr (true, same) ↦
            (0, ground arith, omega arith, record { first = ground arith; masked = same })
        | inr (false, other) ↦
            let (k, a, b, h) = later (rw (hit, other) at e) in (suc k, omega arith, omega arith, h)
      ]
      | inr miss ↦ let (k, a, b, h) = later (rw miss at e) in (suc k, omega arith, omega arith, h)
    ]

-- A header that the search reports lies in the part of the stream that it was to search, and the
-- byte of a header and the mask do stand there.
pub rpc_header_in_stream_sound :
    (p : List ℕ) (len r : ℕ)
    → rpc_header_in_stream p len ≡ some (some r)
    → (r < len) × IsHeader (drop r p)
unfolding rpc_header_in_stream
rpc_header_in_stream_sound p len r e =
    let (k, a, b, h) = search_header_sound p len 0 r e in
    let a' : r ≡ k = omega arith in rw a' (b, h)

-- Bytes none of which is the first byte of a header are passed over.
abbrev pub NoHeaderByte : List ℕ → Type 0
NoHeaderByte = All (λ c. c ≢ rpc_header)

pub search_header-append :
    (front p : List ℕ) (n i : ℕ)
    → NoHeaderByte front
    → length front ≤ n
    → search_header (front ++ p) n i ≡ search_header p (n - length front) (i + length front)
unfolding search_header
search_header-append [] p n i h l =
    let e : n - 0 ≡ n = omega arith in let f : i + 0 ≡ i = omega arith in rw (e, f)
search_header-append (c ∷ front) p zero i h l = elim l [ ]
search_header-append (c ∷ front) p (suc n) i h l =
    let e : suc n - suc (length front) ≡ n - length front = omega arith in
    let f : i + suc (length front) ≡ i + 1 + length front = omega arith in
    let g : (c == rpc_header) ≡ false = ground arith in
    rw (e, f, g) (search_header-append front p n (i + 1) h.1 (omega arith))
