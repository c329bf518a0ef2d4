-- ===== src/Xfer/Hint.antt =====
-- gtcd/gtcd.T: `parse_hint` and `make_hint` for the protocol "gtc", the reader of hints that the
-- transfers take as a parameter. `atoi` and the printing of a number are those of the libraries. A
-- string has no byte 0.
pub mod Printed
use ditto.Prelude.{
  ℕ, Bool, true, false, not, ◌&&◌, Option, none, some, List, [], ◌∷◌, ◌++◌, drop, ◌==◌,
  if◌then◌else◌,
}
use ditto.Prelude.Bytes.{Bytes, bytes_eq}
use ditto.Xfer.Chunk.{Hint, HintStatus}

pub starts_with : Bytes → Bytes → Bool
starts_with [] p = true
starts_with (x ∷ xs) [] = false
starts_with (x ∷ xs) (y ∷ p) = x == y && starts_with xs p

-- `strstr`: what is in front of the first occurrence, and the string from there on.
pub strstr : Bytes → Bytes → Option (Bytes × Bytes)
strstr [] needle = if starts_with needle [] then some ([], []) else none
strstr (c ∷ p) needle =
    let rest = strstr p needle in
    if starts_with needle (c ∷ p)
    then some ([], c ∷ p)
    else elim rest [ none ↦ none | some (before, from) ↦ some (c ∷ before, from) ]

-- "://", ":" and "gtc".
abbrev pub separator : Bytes
separator = 58 ∷ 47 ∷ 47 ∷ []

abbrev pub colon : Bytes
colon = 58 ∷ []

abbrev pub gtc : Bytes
gtc = 103 ∷ 116 ∷ 99 ∷ []

module _ (atoi : Bytes → ℕ) where
  -- The port: up to the next colon, or up to the end.
  pub hint_port : Bytes → ℕ
  hint_port p = elim (strstr p colon) [ none ↦ atoi p | some (port, from) ↦ atoi port ]

  pub parse_hint : Bytes → HintStatus
  parse_hint ddata = elim (strstr ddata separator) [
    | none ↦ HintStatus.bad_hint
    | some (cur_protocol, ptr) ↦
        if not (bytes_eq cur_protocol gtc)
        then HintStatus.bad_hint
        else elim (strstr (drop 3 ptr) colon) [
          | none ↦ HintStatus.bad_hint
          | some (host, from) ↦
              HintStatus.gtc_hint (record { hostname = host; port = hint_port (drop 1 from) })
        ]
  ]

module _ (decimal : ℕ → Bytes) where
  pub make_hint : Hint → Bytes
  make_hint ip = gtc ++ (separator ++ (ip.hostname ++ (colon ++ decimal ip.port)))
