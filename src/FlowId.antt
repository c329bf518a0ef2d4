-- ===== src/FlowId.antt =====
-- src/sniffer/flow_id.{h,cc}: the addresses and ports of a TCP flow. The addresses are the texts of
-- `inet_ntoa`; an `unsigned int` is a number below 2 ^ 32.
pub mod Text
use ditto.Prelude.{
  ℕ, zero, suc, ◌+◌, ◌-◌, ◌/◌, ◌%◌, ◌^◌, Bool, ◌&&◌, List, [], ◌∷◌, ◌++◌, add32, ltb, ◌==◌,
  if◌then◌else◌,
}
use ditto.Prelude.Bytes.{Bytes, bytes_eq}

pub record FlowId : Type 0 where
  pub src_ip : Bytes
  pub dst_ip : Bytes
  pub src_port : ℕ
  pub dst_port : ℕ

-- `operator==`.
pub equal : FlowId → FlowId → Bool
equal f g =
    bytes_eq f.src_ip g.src_ip
    && bytes_eq f.dst_ip g.dst_ip
    && f.src_port == g.src_port
    && f.dst_port == g.dst_port

-- `operator<`.
unfoldable pub less : FlowId → FlowId → Bool
less f g = ltb (add32 f.src_port f.dst_port) (add32 g.src_port g.dst_port)

-- The decimal digits of a number below 10 ^ fuel, in front of `rest`.
digits_before : ℕ → ℕ → Bytes → Bytes
digits_before zero n rest = rest
digits_before (suc fuel) n rest =
    let c = 48 + n % 10 in
    let more = digits_before fuel (n / 10) (c ∷ rest) in if n / 10 == 0 then c ∷ rest else more

-- `sprintf (buffer, "%d", n)` of an `unsigned int`, which it takes for an `int`. A number of 32 bits
-- has at most ten digits.
pub sprintf_d : ℕ → Bytes
unfolding digits_before
sprintf_d n =
    if ltb n (2 ^ 31) then digits_before 10 n [] else b'-' ∷ digits_before 10 (2 ^ 32 - n) []

-- `toString`.
unfoldable pub to_string : FlowId → Bytes
to_string f =
    f.src_ip
    ++ (b':'
        ∷ (sprintf_d f.src_port
            ++ (b' ' ∷ b'=' ∷ b'>' ∷ b' ' ∷ (f.dst_ip ++ (b':' ∷ sprintf_d f.dst_port)))))
