-- ===== src/Prelude/Bits.antt =====
-- The bitwise operations one binary digit at a time, and what they are on the masks and shifts of
-- the sources.
use Prim.Native.Nat.{
  ℕ, zero, suc, ◌+◌, ◌*◌, ◌/◌, ◌%◌, ◌≤◌, ◌<◌, min, max, digits, ◌^◌, bit_and, bit_or,
  bit_and-bitwise, bit_or-bitwise,
}
use mathlib.Core.Path.{◌≡◌, refl, ◌∙◌, ap}
use native.Mathlib.Nat.{pow-suc}
use native.Mathlib.Omega.{arith}

-- With enough rounds for `a` the result does not depend on how many there are.
module _ (last : ℕ → ℕ) (op : ℕ → ℕ → ℕ) where
  rounds_enough : (k j a b : ℕ) → a ≤ k → a ≤ j → digits last op k a b ≡ digits last op j a b
  rounds_enough zero zero a b h g = refl
  rounds_enough (suc k) zero zero b h g = refl
  rounds_enough (suc k) zero (suc a) b h g = elim g [ ]
  rounds_enough zero (suc j) zero b h g = refl
  rounds_enough zero (suc j) (suc a) b h g = elim h [ ]
  rounds_enough (suc k) (suc j) zero b h g = refl
  rounds_enough (suc k) (suc j) (suc a) b h g =
      ap (λ (t : ℕ). t * 2 + op (suc a % 2) (b % 2))
        (rounds_enough k j (suc a / 2) (b / 2) (omega arith) (omega arith))

  one_round :
      (a b : ℕ)
      → digits last op (suc a) (suc a) b
        ≡ digits last op (suc a / 2) (suc a / 2) (b / 2) * 2 + op (suc a % 2) (b % 2)
  one_round a b =
      ap (λ (t : ℕ). t * 2 + op (suc a % 2) (b % 2))
        (rounds_enough a (suc a / 2) (suc a / 2) (b / 2) (omega arith) (omega arith))

bit_or-digit : (a b : ℕ) → bit_or a b ≡ bit_or (a / 2) (b / 2) * 2 + max (a % 2) (b % 2)
bit_or-digit zero b = omega (arith, bit_or-bitwise 0 b, bit_or-bitwise 0 (b / 2))
bit_or-digit (suc a) b = omega (
  arith,
  bit_or-bitwise (suc a) b,
  bit_or-bitwise (suc a / 2) (b / 2),
  one_round (λ y. y) max a b,
)

bit_and-digit : (a b : ℕ) → bit_and a b ≡ bit_and (a / 2) (b / 2) * 2 + min (a % 2) (b % 2)
bit_and-digit zero b = omega (arith, bit_and-bitwise 0 b, bit_and-bitwise 0 (b / 2))
bit_and-digit (suc a) b = omega (
  arith,
  bit_and-bitwise (suc a) b,
  bit_and-bitwise (suc a / 2) (b / 2),
  one_round (λ y. 0) min a b,
)

-- The laws go from the halves to the number, hence a bound that falls.
bit_or-zero_below : (n a : ℕ) → a ≤ n → bit_or a 0 ≡ a
bit_or-zero_below n zero h = refl
bit_or-zero_below zero (suc a) h = elim h [ ]
bit_or-zero_below (suc n) (suc a) h =
    omega (arith, bit_or-digit (suc a) 0, bit_or-zero_below n (suc a / 2) (omega arith))

bit_and-zero_below : (n a : ℕ) → a ≤ n → bit_and a 0 ≡ 0
bit_and-zero_below n zero h = refl
bit_and-zero_below zero (suc a) h = elim h [ ]
bit_and-zero_below (suc n) (suc a) h =
    omega (arith, bit_and-digit (suc a) 0, bit_and-zero_below n (suc a / 2) (omega arith))

bit_or-zero : (a : ℕ) → bit_or a 0 ≡ a
bit_or-zero a = bit_or-zero_below a a (omega arith)

and_zero : (a : ℕ) → bit_and a 0 ≡ 0
and_zero a = bit_and-zero_below a a (omega arith)

and_low1 : (a : ℕ) → bit_and a 1 ≡ a % 2
and_low1 a = omega (arith, bit_and-digit a 1, and_zero (a / 2))

and_low4 : (a : ℕ) → bit_and a 0x0f ≡ a % 16
and_low4 a = omega (
  arith,
  bit_and-digit a 0x0f,
  bit_and-digit (a / 2) 7,
  bit_and-digit (a / 2 / 2) 3,
  and_low1 (a / 2 / 2 / 2),
)

-- `x & 0x7f`, `x & 0xff` and `x & 0x1fff`.
pub and_low7 : (a : ℕ) → bit_and a 0x7f ≡ a % 128
and_low7 a = omega (
  arith,
  bit_and-digit a 0x7f,
  bit_and-digit (a / 2) 0x3f,
  bit_and-digit (a / 2 / 2) 0x1f,
  and_low4 (a / 2 / 2 / 2),
)

pub and_low8 : (a : ℕ) → bit_and a 0xff ≡ a % 256
and_low8 a = omega (arith, bit_and-digit a 0xff, and_low7 (a / 2))

or_shift_digits : (k q r : ℕ) → r < 2 ^ k → bit_or (q * 2 ^ k) r ≡ q * 2 ^ k + r
or_shift_digits zero q r h = let e : r ≡ 0 = omega arith in rw e (bit_or-zero (q * 1) ∙ omega arith)
or_shift_digits (suc k) q r h =
    let p : q * 2 ^ suc k ≡ 2 * (q * 2 ^ k) = omega (arith, ap (λ (t : ℕ). q * t) (pow-suc 2 k)) in
    omega (
      arith,
      p,
      pow-suc 2 k,
      bit_or-digit (q * 2 ^ suc k) r,
      ap (λ (t : ℕ). bit_or t (r / 2)) (half_of p),
      or_shift_digits k q (r / 2) (omega (arith, pow-suc 2 k)),
    )
  where
    half_of : {x y : ℕ} → x ≡ 2 * y → x / 2 ≡ y
    half_of e = omega arith

-- `(a << 8) | y` for a byte `y`.
pub or_shift8 : (a y : ℕ) → y < 256 → bit_or (a * 256) y ≡ a * 256 + y
or_shift8 a y h = or_shift_digits 8 a y h
