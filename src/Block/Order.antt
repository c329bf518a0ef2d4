-- ===== src/Block/Order.antt =====
-- Well-formed blocks, and what each operation makes of one.
use ditto.Prelude.{
  ℕ, ◌+◌, ◌-◌, ◌≤◌, ◌<◌, ◌≡◌, refl, ◌^◌, sub32, false, List, arith, length, take, drop, length-take,
  length-drop, length-append,
}
use ditto.Block.{ContiguousBlock, new_block, append, overlapping_append, prepend}
use ditto.Block.Slices.{Agrees, Agrees-append, Agrees-take, Agrees-drop}

-- The block holds at least one byte, ends where its bytes end, and its bytes are those of the stream.
pub record IsBlock (d : ℕ → ℕ) (b : ContiguousBlock) : Type 0 where
  pub nonempty : b.starting_seq_number < b.next_expected_seq_number
  pub extent : b.next_expected_seq_number ≡ b.starting_seq_number + length b.contiguous_block
  pub agrees : Agrees d b.starting_seq_number b.contiguous_block
  pub started : b.b_init ≡ false

module _ (d : ℕ → ℕ) where
  pub new_block-IsBlock :
      (str : List ℕ) (size n : ℕ)
      → size ≤ length str
      → 0 < size
      → n + size < 2 ^ 32
      → Agrees d n str
      → IsBlock d (append new_block str size n)
  unfolding append new_block
  new_block-IsBlock str size n l p w h = record {
    nonempty = omega arith;
    extent = omega (arith, length-take size str);
    agrees = Agrees-take d n size str h;
    started = refl;
  }

  -- Bytes that end where the block starts, or a front of bytes that run on into it.
  pub prepend-IsBlock :
      (b : ContiguousBlock) (str : List ℕ) (size n : ℕ)
      → size ≤ length str
      → n + size ≡ b.starting_seq_number
      → Agrees d n str
      → IsBlock d b
      → IsBlock d (prepend b str size n)
  unfolding prepend
  prepend-IsBlock b str size n l e h v = record {
    nonempty = omega arith;
    extent = omega (arith, length-append (take size str) b.contiguous_block, length-take size str);
    agrees =
        Agrees-append d n b.starting_seq_number (take size str) b.contiguous_block
          (omega (arith, length-take size str)) (Agrees-take d n size str h) v.agrees;
    started = v.started;
  }

  -- Bytes that start at `n` inside the block, or where it ends, and run to `e` past its end.
  pub overlapping_append-IsBlock :
      (b : ContiguousBlock) (str : List ℕ) (n e : ℕ)
      → b.next_expected_seq_number < 2 ^ 32
      → n ≤ b.next_expected_seq_number
      → e ≡ n + length str
      → b.next_expected_seq_number ≤ e
      → Agrees d n str
      → IsBlock d b
      → IsBlock d (overlapping_append b str (sub32 b.next_expected_seq_number n) e)
  unfolding overlapping_append
  overlapping_append-IsBlock b str n e w l q f h v =
      let k = sub32 b.next_expected_seq_number n in
      let rest = take (length str - k) (drop k str) in
      record {
        nonempty = omega arith;
        extent = omega (
          arith,
          length-append b.contiguous_block rest,
          length-take (length str - k) (drop k str),
          length-drop k str,
        );
        agrees =
            Agrees-append d b.starting_seq_number b.next_expected_seq_number b.contiguous_block rest
              v.extent v.agrees
              (Agrees-take d b.next_expected_seq_number (length str - k) (drop k str)
                (Agrees-drop d n b.next_expected_seq_number k str (omega arith) h));
        started = v.started;
      }
