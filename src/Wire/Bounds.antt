-- ===== src/Wire/Bounds.antt =====
-- How large the length in a record mark can be.
use ditto.Prelude.{
  ℕ, ◌+◌, ◌*◌, ◌%◌, ◌^◌, ◌<◌, ◌≡◌, ◌∙◌, ap, bit_and, bit_or, List, [], ◌∷◌, arith, Returns,
}
use ditto.Prelude.Bits.{and_low7, and_low8, or_shift8}
use ditto.Wire.{be32, get_length_from_byte_stream}

shifted : (i b : ℕ) → bit_or (i * 256) (bit_and b 0xff) ≡ i * 256 + b % 256
shifted i b = ap (bit_or (i * 256)) (and_low8 b) ∙ or_shift8 i (b % 256) (omega arith)

pub get_length_bound : (p : List ℕ) → Returns (λ n. n < 2 ^ 31) (get_length_from_byte_stream p)
unfolding get_length_from_byte_stream be32
get_length_bound [] = tt
get_length_bound (a ∷ []) = tt
get_length_bound (a ∷ b ∷ []) = tt
get_length_bound (a ∷ b ∷ c ∷ []) = tt
get_length_bound (a ∷ b ∷ c ∷ e ∷ p) =
    let x : ℕ = bit_or (bit_and a 0x7f * 256) (bit_and b 0xff) in
    let y : ℕ = bit_or (x * 256) (bit_and c 0xff) in
    omega (arith, and_low7 a, shifted (bit_and a 0x7f) b, shifted x c, shifted y e)
