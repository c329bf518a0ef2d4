-- ===== src/Block/Slices.antt =====
-- Bytes as a slice of a stream `d`, which gives the byte at each position.
use ditto.Prelude.{
  ℕ, zero, suc, ◌+◌, ◌≤◌, ◌≡◌, refl, ap, List, [], ◌∷◌, ◌++◌, arith, length, take, drop,
}

-- `xs` is what the stream holds from position `n` on.
abbrev pub Agrees : (ℕ → ℕ) → ℕ → List ℕ → Type 0
Agrees d n [] = Unit {0}
Agrees d n (x ∷ xs) = (x ≡ d n) × Agrees d (suc n) xs

-- The `k` bytes of the stream from position `n` on.
abbrev pub segment : (ℕ → ℕ) → ℕ → ℕ → List ℕ
segment d n zero = []
segment d n (suc k) = d n ∷ segment d (suc n) k

module _ (d : ℕ → ℕ) where
  pub Agrees-append :
      (n m : ℕ) (xs ys : List ℕ)
      → m ≡ n + length xs
      → Agrees d n xs
      → Agrees d m ys
      → Agrees d n (xs ++ ys)
  Agrees-append n m [] ys e hx hy = let e' : m ≡ n = omega arith in rw e' at hy
  Agrees-append n m (x ∷ xs) ys e hx hy =
      (hx.0, Agrees-append (suc n) m xs ys (omega arith) hx.1 hy)

  pub Agrees-take : (n k : ℕ) (xs : List ℕ) → Agrees d n xs → Agrees d n (take k xs)
  Agrees-take n zero xs h = tt
  Agrees-take n (suc k) [] h = tt
  Agrees-take n (suc k) (x ∷ xs) h = (h.0, Agrees-take (suc n) k xs h.1)

  pub Agrees-drop : (n m k : ℕ) (xs : List ℕ) → m ≡ n + k → Agrees d n xs → Agrees d m (drop k xs)
  Agrees-drop n m zero xs e h = let e' : n ≡ m = omega arith in rw e' at h
  Agrees-drop n m (suc k) [] e h = tt
  Agrees-drop n m (suc k) (x ∷ xs) e h = Agrees-drop (suc n) m k xs (omega arith) h.1

  -- A list that agrees with the stream is determined by its length.
  pub Agrees-segment :
      (n k : ℕ) (xs : List ℕ) → Agrees d n xs → k ≤ length xs → take k xs ≡ segment d n k
  Agrees-segment n zero xs h l = refl
  Agrees-segment n (suc k) [] h l = elim l [ ]
  Agrees-segment n (suc k) (x ∷ xs) h l = cc (h.0, Agrees-segment (suc n) k xs h.1 (omega arith))

  segment-Agrees : (n k : ℕ) → Agrees d n (segment d n k)
  segment-Agrees n zero = tt
  segment-Agrees n (suc k) = (refl, segment-Agrees (suc n) k)

  length-segment : (n k : ℕ) → length (segment d n k) ≡ k
  length-segment n zero = refl
  length-segment n (suc k) = ap suc (length-segment (suc n) k)
