-- ===== src/Xfer/Bitmap/RoundTrip.antt =====
-- Unpacking the packed bits gives the bits.
use ditto.Prelude.{
  ℕ, zero, suc, ◌+◌, ◌*◌, ◌/◌, ◌%◌, ◌^◌, ◌≤◌, ◌<◌, ◌≡◌, refl, ap, ◌∙◌, Bool, true, false, ◌&&◌,
  ◌||◌, some, List, [], ◌∷◌, ◌==◌, get_elem?, length, take_all, ltb, All, arith, IsByte, >>=_step,
}
use Prim.Native.Nat.{bit_and-bitwise}
use ditto.Xfer.Bitmap.{
  bytes_for, zeroed, or_at, pack, desc_count, convert_from_bitvec, test_bit, unpack,
  convert_to_bitvec,
}
use ditto.Xfer.Bitmap.Bits.{bit, length-or_at, or_at-IsByte, bit-or_at}

bit_at : List ℕ → ℕ → Bool
bit_at tmp j = bit tmp (j / 8) (j % 8)

-- Bit `j` of the bits that the loop still has to write from position `i` on.
chosen : List Bool → ℕ → ℕ → Bool
chosen [] i j = false
chosen (b ∷ bs) i j = (b && i == j) || chosen bs (i + 1) j

bit_at-or_at :
    (i j : ℕ) (tmp : List ℕ)
    → i < 8 * length tmp
    → All IsByte tmp
    → bit_at (or_at (i / 8) (2 ^ (i % 8)) tmp) j ≡ (bit_at tmp j || i == j)
unfolding bit_at
bit_at-or_at i j tmp h a =
    bit-or_at (i / 8) (i % 8) (j / 8) (j % 8) tmp (omega arith) (omega arith) (omega arith) a
    ∙ ap (λ (t : Bool). bit tmp (j / 8) (j % 8) || t) (same_place i j)
  where
    same_place : (i j : ℕ) → (i / 8 == j / 8 && i % 8 == j % 8) ≡ (i == j)
    same_place i j = ground arith

bit_at-pack :
    (bits : List Bool) (i j : ℕ) (tmp : List ℕ)
    → i + length bits ≤ 8 * length tmp
    → All IsByte tmp
    → bit_at (pack bits i tmp) j ≡ (bit_at tmp j || chosen bits i j)
unfolding pack chosen
bit_at-pack [] i j tmp h a = ground arith
bit_at-pack (false ∷ bs) i j tmp h a = bit_at-pack bs (i + 1) j tmp (omega arith) a
bit_at-pack (true ∷ bs) i j tmp h a =
    let tmp' : List ℕ = or_at (i / 8) (2 ^ (i % 8)) tmp in
    let n : length tmp' ≡ length tmp = length-or_at (i / 8) (2 ^ (i % 8)) tmp in
    let e : bit_at (pack bs (i + 1) tmp') j ≡ (bit_at tmp' j || chosen bs (i + 1) j) =
      bit_at-pack bs (i + 1) j tmp' (omega arith)
        (or_at-IsByte (i / 8) (i % 8) tmp (omega arith) a) in
    e
    ∙ ap (λ (t : Bool). t || chosen bs (i + 1) j) (bit_at-or_at i j tmp (omega arith) a)
    ∙ or_assoc (bit_at tmp j) (i == j) (chosen bs (i + 1) j)
  where
    or_assoc : (a b c : Bool) → ((a || b) || c) ≡ (a || (b || c))
    or_assoc true b c = refl
    or_assoc false b c = refl

length-pack : (bits : List Bool) (i : ℕ) (tmp : List ℕ) → length (pack bits i tmp) ≡ length tmp
unfolding pack
length-pack [] i tmp = refl
length-pack (true ∷ bs) i tmp =
    length-pack bs (i + 1) (or_at (i / 8) (2 ^ (i % 8)) tmp)
    ∙ length-or_at (i / 8) (2 ^ (i % 8)) tmp
length-pack (false ∷ bs) i tmp = length-pack bs (i + 1) tmp

chosen_before : (bits : List Bool) (i j : ℕ) → j < i → chosen bits i j ≡ false
unfolding chosen
chosen_before [] i j h = refl
chosen_before (b ∷ bs) i j h = ground (arith, chosen_before bs (i + 1) j)

get_elem?-bit :
    (bmp : List ℕ) (k n : ℕ)
    → k < length bmp
    → (x : ℕ) × (get_elem? bmp k ≡ some x) × (test_bit x n ≡ bit bmp k n)
unfolding bit
get_elem?-bit [] k n h = absurd (omega arith)
get_elem?-bit (x ∷ xs) zero n h = (x, refl, refl)
get_elem?-bit (x ∷ xs) (suc k) n h = get_elem?-bit xs k n (omega arith)

unpack_lem :
    (bmp : List ℕ) (bits : List Bool) (i : ℕ)
    → i + length bits ≤ 8 * length bmp
    → ((j : ℕ) → i ≤ j → bit_at bmp j ≡ chosen bits i j)
    → unpack bmp (length bits) i ≡ some bits
unfolding unpack bit_at chosen
unpack_lem bmp [] i h g = refl
unpack_lem bmp (b ∷ bs) i h g =
    let (x, ex, et) = get_elem?-bit bmp (i / 8) (i % 8) (omega arith) in
    let here : test_bit x (i % 8) ≡ b =
      ground (arith, et, g i (omega arith), chosen_before bs (i + 1) i (omega arith)) in
    let rest : unpack bmp (length bs) (i + 1) ≡ some bs =
      unpack_lem bmp bs (i + 1) (omega arith) (λ j l. ground (arith, g j (omega arith))) in
    >>=_step (get_elem? bmp (i / 8)) _ x ex
      (>>=_step (unpack bmp (length bs) (i + 1)) _ bs rest (rw here refl))

length-zeroed : (n : ℕ) → length (zeroed n) ≡ n
unfolding zeroed
length-zeroed zero = refl
length-zeroed (suc n) = omega (arith, length-zeroed n)

zeroed-IsByte : (n : ℕ) → All IsByte (zeroed n)
unfolding zeroed
zeroed-IsByte zero = tt
zeroed-IsByte (suc n) = (omega arith, zeroed-IsByte n)

bit-zeroed : (n k m : ℕ) → bit (zeroed n) k m ≡ false
unfolding zeroed bit test_bit
bit-zeroed zero k m = refl
bit-zeroed (suc n) zero m = ground (arith, bit_and-bitwise 0 (2 ^ m))
bit-zeroed (suc n) (suc k) m = bit-zeroed n k m

whole_count :
    (bits : List Bool)
    → length bits < 2 ^ 32
    → convert_from_bitvec bits ≡ pack bits 0 (zeroed (bytes_for (length bits)))
unfolding convert_from_bitvec desc_count
whole_count bits fits =
    let e : length bits % 2 ^ 32 ≡ length bits = omega arith in
    rw (e, take_all (length bits) bits (omega arith)) refl

-- The bytes of a bitmap.
pub length-convert_from_bitvec :
    (bits : List Bool)
    → length bits < 2 ^ 32
    → length (convert_from_bitvec bits) ≡ bytes_for (length bits)
length-convert_from_bitvec bits fits =
    ap length (whole_count bits fits)
    ∙ length-pack bits 0 (zeroed (bytes_for (length bits)))
    ∙ length-zeroed (bytes_for (length bits))

pub bytes_for_enough : (n : ℕ) → n ≤ 8 * bytes_for n
unfolding bytes_for
bytes_for_enough n = ground arith

written :
    (bits : List Bool) (j : ℕ)
    → length bits < 2 ^ 32
    → bit_at (convert_from_bitvec bits) j ≡ chosen bits 0 j
unfolding bit_at
written bits j fits =
    let n : ℕ = bytes_for (length bits) in
    let h : 0 + length bits ≤ 8 * length (zeroed n) =
      omega (arith, length-zeroed n, bytes_for_enough (length bits)) in
    ap (λ (t : List ℕ). bit_at t j) (whole_count bits fits)
    ∙ bit_at-pack bits 0 j (zeroed n) h (zeroed-IsByte n)
    ∙ ap (λ (t : Bool). t || chosen bits 0 j) (bit-zeroed n (j / 8) (j % 8))

-- Every bit vector of fewer than 2 ^ 31 bits: packed into bytes by convert_from_bitvec and unpacked
-- by convert_to_bitvec with its length as the count, it is the same, and no access is outside the
-- bytes.
pub convert_to-convert_from :
    (bits : List Bool)
    → length bits < 2 ^ 31
    → convert_to_bitvec (convert_from_bitvec bits) (length bits) ≡ some bits
unfolding convert_to_bitvec
convert_to-convert_from bits fits =
    let fits32 : length bits < 2 ^ 32 = omega arith in
    let b : ltb (length bits) (2 ^ 31) ≡ true = ground arith in
    let h : 0 + length bits ≤ 8 * length (convert_from_bitvec bits) =
      omega (arith, length-convert_from_bitvec bits fits32, bytes_for_enough (length bits)) in
    rw b (unpack_lem (convert_from_bitvec bits) bits 0 h (λ j l. written bits j fits32))
