-- ===== src/Sniffer/Ignored.antt =====
-- Which frames a sniffer lets through.
use ditto.Prelude.{
  ℕ, ◌+◌, ◌-◌, ◌*◌, ◌/◌, ◌≤◌, ◌<◌, ◌≡◌, ◌⊎◌, inl, inr, refl, Bool, some, none, List, arith, length,
  drop, get_elem?, length-drop, bit_and, ltb, ◌==◌, Bool-cases, zero, suc, [], ◌∷◌,
}
use ditto.Prelude.Bytes.{Bytes}
use ditto.Sniffer.{SniffTcp}
use ditto.Sniffer.Capture.{ntohs_at, handle_ethernet, accepts_ip, handle_ip, my_callback_ethernet}

-- The byte at an offset, 0 behind the end.
abbrev pub byte : List ℕ → ℕ → ℕ
byte p i = elim (get_elem? p i) [ none ↦ 0 | some b ↦ b ]

byte_known : (p : List ℕ) (i : ℕ) → i < length p → get_elem? p i ≡ some (byte p i)
byte_known [] i h = absurd (omega arith)
byte_known (b ∷ p) zero h = refl
byte_known (b ∷ p) (suc i) h = byte_known p i (omega arith)

byte-drop : (n i : ℕ) (p : List ℕ) → byte (drop n p) i ≡ byte p (n + i)
byte-drop zero i p = let e : 0 + i ≡ i = omega arith in rw e refl
byte-drop (suc n) i [] = refl
byte-drop (suc n) i (b ∷ p) =
    let e : suc n + i ≡ suc (n + i) = omega arith in rw e (byte-drop n i p)

ntohs_known :
    (p : List ℕ) (i : ℕ) → i + 1 < length p → ntohs_at p i ≡ some (byte p i * 256 + byte p (i + 1))
unfolding ntohs_at
ntohs_known p i h = rw (byte_known p i (omega arith), byte_known p (i + 1) (omega arith)) refl

-- An Ethernet frame that holds a TCP segment over IPv4.
abbrev pub IsTcpFrame : List ℕ → Type 0
IsTcpFrame p =
    (byte p 12 * 256 + byte p 13 ≡ 0x0800) × (bit_and (byte p 14) 0xf0 / 16 ≡ 4) × (byte p 23 ≡ 6)

module _ (inet_ntoa : Bytes → Bytes) (multi_chances : Bool) where
  ip_ignored :
      (s : SniffTcp) (captured : ℕ) (p : List ℕ)
      → captured ≤ length p
      → (handle_ip inet_ntoa multi_chances s captured p ≡ some s)
        ⊎ ((bit_and (byte p 0) 0xf0 / 16 ≡ 4) × (byte p 9 ≡ 6))
  unfolding handle_ip accepts_ip
  ip_ignored s captured p h = elim (Bool-cases (ltb captured 20)) [
    | inl short ↦ inl (rw short refl)
    | inr long ↦
        elim (Bool-cases (
          accepts_ip captured (byte p 2 * 256 + byte p 3) (bit_and (byte p 0) 0x0f * 4)
            (bit_and (byte p 0) 0xf0 / 16) (byte p 9))) [
              | inl fine ↦ inr (ground arith)
              | inr other ↦ inl (
                  rw
                    (
                      long,
                      byte_known p 0 (ground arith),
                      ntohs_known p 2 (ground arith),
                      byte_known p 9 (ground arith),
                      other,
                    )
                    refl)
            ]
  ]

  -- Every captured Ethernet frame, in both modes: the step returns and leaves the sniffer as it
  -- was, or the frame says of itself that it is IPv4 and carries TCP.
  my_callback_ethernet_ignores :
      (s : SniffTcp) (packet : List ℕ)
      → (my_callback_ethernet inet_ntoa multi_chances s packet ≡ some s) ⊎ IsTcpFrame packet
  unfolding my_callback_ethernet handle_ethernet
  my_callback_ethernet_ignores s packet = elim (Bool-cases (ltb (length packet) 14)) [
    | inl short ↦ inl (rw short refl)
    | inr long ↦ elim (Bool-cases (byte packet 12 * 256 + byte packet 13 == 0x0800)) [
      | inr other ↦ inl (rw (long, ntohs_known packet 12 (ground arith), other) refl)
      | inl ip ↦
          elim (ip_ignored s (length packet - 14) (drop 14 packet)
            (omega (arith, length-drop 14 packet))) [
              | inl same ↦ inl (rw (long, ntohs_known packet 12 (ground arith), ip, same) refl)
              | inr (version, protocol) ↦ inr (
                ground arith,
                rw (← byte-drop 14 0 packet) version,
                rw (← byte-drop 14 9 packet) protocol,
              )
            ]
    ]
  ]
