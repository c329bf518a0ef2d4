-- ===== src/Xfer/Bitmap.antt =====
-- src/gtcd/xfer/xferPlugin_gtc.cc: `convert_from_bitvec` and `convert_to_bitvec`. A `bitvec` is a list
-- of Booleans. A read outside the bytes that were received is a fault, `none`.
mod Bits
mod Page
pub mod RoundTrip
pub mod Paging
pub mod OnePage
use ditto.Prelude.{
  ℕ, zero, suc, ◌+◌, ◌/◌, ◌%◌, ◌^◌, Bool, true, false, not, Option, some, none, List, [], ◌∷◌,
  bit_and, bit_or, ◌==◌, get_elem?, length, ltb, take, if◌then◌else◌, ◌>>=◌,
}

-- `desc_count / 8`, and one more for the rest.
pub bytes_for : ℕ → ℕ
bytes_for n = n / 8 + (if n % 8 == 0 then 0 else 1)

-- `desc_count`, an `unsigned int`.
pub desc_count : List Bool → ℕ
desc_count bits = length bits % 2 ^ 32

-- `memset (tmp, 0x0, nbytes)`.
pub zeroed : ℕ → List ℕ
zeroed zero = []
zeroed (suc n) = 0 ∷ zeroed n

-- `tmp[k] |= m`.
pub or_at : ℕ → ℕ → List ℕ → List ℕ
or_at k m [] = []
or_at zero m (x ∷ xs) = bit_or x m ∷ xs
or_at (suc k) m (x ∷ xs) = x ∷ or_at k m xs

-- The loop over the bits, from bit `i` on.
pub pack : List Bool → ℕ → List ℕ → List ℕ
pack [] i tmp = tmp
pack (b ∷ bs) i tmp = pack bs (i + 1) (if b then or_at (i / 8) (2 ^ (i % 8)) tmp else tmp)

pub convert_from_bitvec : List Bool → List ℕ
convert_from_bitvec bits =
    pack (take (desc_count bits) bits) 0 (zeroed (bytes_for (desc_count bits)))

-- `x & (1 << k)`, as a bit.
pub test_bit : ℕ → ℕ → Bool
test_bit x k = not (bit_and x (2 ^ k) == 0)

-- The loop over `n` bits, from bit `i` on.
pub unpack : List ℕ → ℕ → ℕ → Option (List Bool)
unpack bmp zero i = some []
unpack bmp (suc n) i = do
  x ← get_elem? bmp (i / 8)
  bits ← unpack bmp n (i + 1)
  some (test_bit x (i % 8) ∷ bits)

-- `desc_count` is an `int`, here its 32 bits; a negative one is a size that no `bitvec` has: a fault.
pub convert_to_bitvec : List ℕ → ℕ → Option (List Bool)
convert_to_bitvec bmp count = if ltb count (2 ^ 31) then unpack bmp count 0 else none
