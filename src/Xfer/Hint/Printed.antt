-- ===== src/Xfer/Hint/Printed.antt =====
-- A hint that was printed is read back.
use ditto.Prelude.{
  ℕ, ◌≡◌, ◌≢◌, refl, ◌∙◌, ap, true, false, ◌&&◌, none, some, [], ◌∷◌, ◌++◌, All, drop, ◌==◌, arith,
  case_some, case_none,
}
use ditto.Prelude.Bytes.{Bytes, bytes_eq}
use ditto.Xfer.Chunk.{Hint, HintStatus}
use ditto.Xfer.Hint.{starts_with, strstr, colon, hint_port, parse_hint, make_hint}

-- No byte is a colon.
abbrev pub NoColon : Bytes → Type 0
NoColon bs = All (λ c. c ≢ 58) bs

strstr-colon :
    (bs rest : Bytes) → NoColon bs → strstr (bs ++ (58 ∷ rest)) colon ≡ some (bs, 58 ∷ rest)
unfolding strstr starts_with
strstr-colon [] rest h = refl
strstr-colon (c ∷ bs) rest h =
    let b : (58 == c && true) ≡ false = ground (arith, h.0) in
    rw (b, strstr-colon bs rest (h.1)) refl

strstr-none : (bs : Bytes) → NoColon bs → strstr bs colon ≡ none
unfolding strstr starts_with
strstr-none [] h = refl
strstr-none (c ∷ bs) h =
    let b : (58 == c && true) ≡ false = ground (arith, h.0) in rw (b, strstr-none bs (h.1)) refl

module _ (atoi : Bytes → ℕ) (decimal : ℕ → Bytes) where
  port_back : (n : ℕ) → NoColon (decimal n) → atoi (decimal n) ≡ n → hint_port atoi (decimal n) ≡ n
  unfolding hint_port
  port_back n h e =
      case_none (strstr (decimal n) colon) (atoi (decimal n)) (λ q. atoi (q.0))
        (strstr-none (decimal n) h)
      ∙ e

  -- A hint whose host has no colon, with a port that the library prints without a colon and reads
  -- back: parse_hint of what make_hint makes of it is the hint.
  pub parse_hint-make_hint :
      (ip : Hint)
      → NoColon ip.hostname
      → NoColon (decimal ip.port)
      → atoi (decimal ip.port) ≡ ip.port
      → parse_hint atoi (make_hint decimal ip) ≡ HintStatus.gtc_hint ip
  unfolding parse_hint make_hint strstr starts_with bytes_eq
  parse_hint-make_hint ip h g e =
      case_some (strstr (ip.hostname ++ (58 ∷ decimal ip.port)) colon) HintStatus.bad_hint
        (λ q. HintStatus.gtc_hint (record { hostname = q.0; port = hint_port atoi (drop 1 (q.1)) }))
        (ip.hostname, 58 ∷ decimal ip.port) (strstr-colon ip.hostname (decimal ip.port) h)
      ∙ ap (λ (n : ℕ). HintStatus.gtc_hint (record { hostname = ip.hostname; port = n }))
          (port_back ip.port g e)
