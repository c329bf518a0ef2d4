-- ===== src/FlowId/Text.antt =====
-- The text of a flow determines the flow, so that the dictionaries that are keyed by it tell flows
-- apart as `operator==` does.
use ditto.Prelude.{
  ℕ, drop, zero, suc, ◌+◌, ◌-◌, ◌*◌, ◌/◌, ◌%◌, ◌^◌, ◌<◌, ◌≡◌, ◌≢◌, ◌↔◌, refl, ap, sym, ◌∙◌, true,
  inl, inr, [], ◌∷◌, ◌++◌, arith, All, ◌==◌, Bool-cases,
}
use ditto.Prelude.Bytes.{Bytes, bytes_eq→eq, bytes_eq_refl}
use ditto.FlowId.{FlowId, equal, digits_before, sprintf_d, to_string}
use native.Mathlib.Nat.{pow-suc}

-- The character does not occur.
abbrev pub Without : ℕ → Bytes → Type 0
Without c = All (λ x. x ≢ c)

-- A text ends where the separator that it lacks first occurs.
split_unique :
    (c : ℕ) (xs ys rest rest' : Bytes)
    → Without c xs
    → Without c ys
    → xs ++ (c ∷ rest) ≡ ys ++ (c ∷ rest')
    → (xs ≡ ys) × (rest ≡ rest')
split_unique c [] [] rest rest' h g e = (refl, cc)
split_unique c [] (y ∷ ys) rest rest' h g e = absurd (g.0 (cc))
split_unique c (x ∷ xs) [] rest rest' h g e = absurd (h.0 (cc))
split_unique c (x ∷ xs) (y ∷ ys) rest rest' h g e =
    let (p, q) = split_unique c xs ys rest rest' h.1 g.1 (cc) in (cc, q)

Without-digits :
    (c fuel n : ℕ) (rest : Bytes) → c < 48 → Without c rest → Without c (digits_before fuel n rest)
unfolding digits_before
Without-digits c zero n rest l h = h
Without-digits c (suc fuel) n rest l h =
    let digit : 48 + n % 10 ≢ c = omega arith in
    elim (Bool-cases (n / 10 == 0)) [
      | inl done ↦ rw done (digit, h)
      | inr more ↦ rw more (Without-digits c fuel (n / 10) _ l (digit, h))
    ]

-- The number that a run of digits stands for, behind those read as `v`.
value : ℕ → Bytes → ℕ
value v [] = v
value v (c ∷ cs) = value (v * 10 + (c - 48)) cs

last_digit : (n : ℕ) → (n / 10 == 0) ≡ true → 0 * 10 + (48 + n % 10 - 48) ≡ n
last_digit n done = ground arith

value-digits :
    (k n : ℕ) (rest : Bytes)
    → n < 10 ^ suc k
    → value 0 (digits_before (suc k) n rest) ≡ value n rest
unfolding value digits_before
value-digits zero n rest h =
    let done : (n / 10 == 0) ≡ true = ground arith in
    rw done (ap (λ (v : ℕ). value v rest) (last_digit n done))
value-digits (suc k) n rest h = elim (Bool-cases (n / 10 == 0)) [
  | inl done ↦ rw done (ap (λ (v : ℕ). value v rest) (last_digit n done))
  | inr more ↦
      let e : n / 10 * 10 + (48 + n % 10 - 48) ≡ n = omega arith in
      rw more (
        value-digits k (n / 10) ((48 + n % 10) ∷ rest) (omega (arith, pow-suc 10 (suc k)))
        ∙ ap (λ (v : ℕ). value v rest) e)
]

digits_injective :
    (m n : ℕ) → m < 2 ^ 32 → n < 2 ^ 32 → digits_before 10 m [] ≡ digits_before 10 n [] → m ≡ n
unfolding value
digits_injective m n h g e =
    sym (value-digits 9 m [] (omega arith)) ∙ ap (value 0) e ∙ value-digits 9 n [] (omega arith)

-- The ports of a flow come from `ntohs`.
pub record IsFlow (f : FlowId) : Type 0 where
  pub src_port_small : f.src_port < 2 ^ 16
  pub dst_port_small : f.dst_port < 2 ^ 16
  pub src_ip_text : Without b':' f.src_ip
  pub dst_ip_text : Without b':' f.dst_ip

port_text : (n : ℕ) → n < 2 ^ 16 → sprintf_d n ≡ digits_before 10 n []
unfolding sprintf_d
port_text n h = ground arith

to_string-injective :
    (f g : FlowId)
    → IsFlow f
    → IsFlow g
    → to_string f ≡ to_string g
    → (f.src_ip ≡ g.src_ip)
      × (f.dst_ip ≡ g.dst_ip)
      × (f.src_port ≡ g.src_port)
      × (f.dst_port ≡ g.dst_port)
unfolding to_string
to_string-injective f g v w e =
    let (a, rest) = split_unique b':' f.src_ip g.src_ip _ _ v.src_ip_text w.src_ip_text e in
    let (b, rest') =
      split_unique b' ' (digits_before 10 f.src_port []) (digits_before 10 g.src_port []) _ _
        (Without-digits b' ' 10 f.src_port [] (omega arith) tt)
        (Without-digits b' ' 10 g.src_port [] (omega arith) tt)
        (rw (port_text f.src_port v.src_port_small, port_text g.src_port w.src_port_small) at
          rest) in
    let (c, rest'') =
      split_unique b':' f.dst_ip g.dst_ip _ _ v.dst_ip_text w.dst_ip_text (ap (drop 3) rest') in
    (
      a,
      c,
      digits_injective f.src_port g.src_port (omega (arith, v.src_port_small))
          (omega (arith, w.src_port_small)) b,
      digits_injective f.dst_port g.dst_port (omega (arith, v.dst_port_small))
          (omega (arith, w.dst_port_small))
          (rw (port_text f.dst_port v.dst_port_small, port_text g.dst_port w.dst_port_small) at
            rest''),
    )

-- Two flows, with ports below 2 ^ 16 and no colon in an address: their texts are equal exactly when
-- `operator==` says that they are.
pub to_string_iff_equal :
    (f g : FlowId) → IsFlow f → IsFlow g → (to_string f ≡ to_string g) ↔ (equal f g ≡ true)
unfolding equal
to_string_iff_equal f g v w = (
  (λ e.
      let p = to_string-injective f g v w e in
      ground (arith, bytes_eq_refl g.src_ip, bytes_eq_refl g.dst_ip)),
  (λ e.
      let src : f.src_ip ≡ g.src_ip = bytes_eq→eq f.src_ip g.src_ip (ground arith) in
      let dst : f.dst_ip ≡ g.dst_ip = bytes_eq→eq f.dst_ip g.dst_ip (ground arith) in
      let sp : f.src_port ≡ g.src_port = ground arith in
      let dp : f.dst_port ≡ g.dst_port = ground arith in
      λ i. to_string (record { src_ip = src i; dst_ip = dst i; src_port = sp i; dst_port = dp i })),
)
