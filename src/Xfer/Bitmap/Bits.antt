-- ===== src/Xfer/Bitmap/Bits.antt =====
-- One bit of a bitmap, before and after another one is set.
use ditto.Prelude.{
  ℕ, zero, suc, ◌^◌, ◌<◌, ◌≡◌, refl, sym, Bool, true, false, not, ◌&&◌, ◌||◌, List, [], ◌∷◌, bit_or,
  ◌==◌, length, All, arith, leb, IsByte,
}
use ditto.Xfer.Bitmap.{or_at, test_bit}

all_below : ℕ → (ℕ → Bool) → Bool
all_below zero p = true
all_below (suc n) p = let rest = all_below n p in p n && rest

all_below_sound : (n : ℕ) (p : ℕ → Bool) (x : ℕ) → all_below n p ≡ true → x < n → p x ≡ true
unfolding all_below
all_below_sound zero p x h l = absurd (omega arith)
all_below_sound (suc n) p x h l = ground (arith, all_below_sound n p x)

abbrev pub same : Bool → Bool → Bool
same true b = b
same false b = not b

same→eq : (a b : Bool) → same a b ≡ true → a ≡ b
same→eq true b h = sym h
same→eq false true h = cc
same→eq false false h = refl

-- Setting a bit of a byte, for every byte and every two bits.
set_bit_table :
    all_below 256 (λ x. all_below 8 (λ m. all_below 8 (λ n.
      leb (bit_or x (2 ^ m)) 255 && same (test_bit (bit_or x (2 ^ m)) n) (test_bit x n || m == n))))
    ≡ true
unfolding all_below test_bit
set_bit_table = refl

set_bit_lem :
    (x m n : ℕ)
    → x < 256
    → m < 8
    → n < 8
    → (leb (bit_or x (2 ^ m)) 255 && same (test_bit (bit_or x (2 ^ m)) n) (test_bit x n || m == n))
      ≡ true
set_bit_lem x m n hx hm hn =
    all_below_sound 8 _ n
      (all_below_sound 8 _ m
        (all_below_sound 256
          (λ x. all_below 8 (λ m. all_below 8 (λ n.
            leb (bit_or x (2 ^ m)) 255
            && same (test_bit (bit_or x (2 ^ m)) n) (test_bit x n || m == n))))
          x set_bit_table hx)
        hm)
      hn

and_left : (a b : Bool) → (a && b) ≡ true → a ≡ true
and_left true b h = refl
and_left false b h = cc

and_right : (a b : Bool) → (a && b) ≡ true → b ≡ true
and_right true b h = h
and_right false b h = cc

set_bit-IsByte : (x m : ℕ) → x < 256 → m < 8 → bit_or x (2 ^ m) < 256
set_bit-IsByte x m hx hm =
    let h : leb (bit_or x (2 ^ m)) 255 ≡ true =
      and_left _ _ (set_bit_lem x m 0 hx hm (omega arith)) in
    ground arith

test_bit-or :
    (x m n : ℕ) → x < 256 → m < 8 → n < 8 → test_bit (bit_or x (2 ^ m)) n ≡ (test_bit x n || m == n)
test_bit-or x m n hx hm hn = same→eq _ _ (and_right _ _ (set_bit_lem x m n hx hm hn))

-- Bit `j` of a bitmap.
unfoldable pub bit : List ℕ → ℕ → ℕ → Bool
bit [] k n = false
bit (x ∷ xs) zero n = test_bit x n
bit (x ∷ xs) (suc k) n = bit xs k n

pub length-or_at : (k m : ℕ) (xs : List ℕ) → length (or_at k m xs) ≡ length xs
unfolding or_at
length-or_at k m [] = refl
length-or_at zero m (x ∷ xs) = refl
length-or_at (suc k) m (x ∷ xs) = omega (arith, length-or_at k m xs)

pub or_at-IsByte : (k n : ℕ) (xs : List ℕ) → n < 8 → All IsByte xs → All IsByte (or_at k (2 ^ n) xs)
unfolding or_at
or_at-IsByte k n [] h a = tt
or_at-IsByte zero n (x ∷ xs) h a = (set_bit-IsByte x n (a.0) h, a.1)
or_at-IsByte (suc k) n (x ∷ xs) h a = (a.0, or_at-IsByte k n xs h (a.1))

pub bit-or_at :
    (k n l m : ℕ) (xs : List ℕ)
    → n < 8
    → m < 8
    → k < length xs
    → All IsByte xs
    → bit (or_at k (2 ^ n) xs) l m ≡ (bit xs l m || (k == l && n == m))
unfolding bit or_at
bit-or_at k n l m [] hn hm hk a = absurd (omega arith)
bit-or_at zero n zero m (x ∷ xs) hn hm hk a = test_bit-or x n m (a.0) hn hm
bit-or_at zero n (suc l) m (x ∷ xs) hn hm hk a = ground arith
bit-or_at (suc k) n zero m (x ∷ xs) hn hm hk a = ground arith
bit-or_at (suc k) n (suc l) m (x ∷ xs) hn hm hk a =
    ground (arith, bit-or_at k n l m xs hn hm (omega arith) (a.1))
