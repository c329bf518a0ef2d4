-- ===== src/Block.antt =====
-- src/sniffer/contiguous_block.{h,cc}: a run of consecutive bytes of one TCP stream. A `char *` with
-- a length is a list with a length; `tcp_seq` is a number below 2 ^ 32.
pub mod Slices
pub mod Order
use ditto.Prelude.{
  ℕ, ◌+◌, Bool, true, false, ◌&&◌, List, [], ◌++◌, add32, drop, take, ltb, ◌==◌, length, ◌-◌,
  if◌then◌else◌,
}

pub record ContiguousBlock : Type 0 where
  pub starting_seq_number : ℕ
  pub next_expected_seq_number : ℕ
  pub contiguous_block : List ℕ
  pub b_init : Bool
  pub b_modified : Bool

-- The default constructor.
unfoldable pub new_block : ContiguousBlock
new_block = record {
  starting_seq_number = 0;
  next_expected_seq_number = 0;
  contiguous_block = [];
  b_init = true;
  b_modified = true;
}

-- `operator=` copies the two sequence numbers and nothing else.
unfoldable pub assign : ContiguousBlock → ContiguousBlock → ContiguousBlock
assign b rhs = record b {
  starting_seq_number = rhs.starting_seq_number;
  next_expected_seq_number = rhs.next_expected_seq_number;
}

-- `operator==`, which looks at the two sequence numbers and nothing else.
unfoldable pub equal : ContiguousBlock → ContiguousBlock → Bool
equal b rhs =
    b.starting_seq_number == rhs.starting_seq_number
    && b.next_expected_seq_number == rhs.next_expected_seq_number

-- `operator<`.
unfoldable pub less : ContiguousBlock → ContiguousBlock → Bool
less b rhs = ltb b.next_expected_seq_number rhs.starting_seq_number

-- `append (const char *, int, tcp_seq)`: the first one fixes where the block starts.
unfoldable pub append : ContiguousBlock → List ℕ → ℕ → ℕ → ContiguousBlock
append b str size_payload start_seq_number = record b {
  starting_seq_number = if b.b_init then start_seq_number else b.starting_seq_number;
  next_expected_seq_number =
      add32 (if b.b_init then start_seq_number else b.next_expected_seq_number) size_payload;
  contiguous_block = b.contiguous_block ++ take size_payload str;
  b_init = false;
  b_modified = true;
}

-- `append (const string *, tcp_seq)`.
unfoldable pub append_string : ContiguousBlock → List ℕ → ℕ → ContiguousBlock
append_string b str end_seq_number = record b {
  next_expected_seq_number = end_seq_number;
  contiguous_block = b.contiguous_block ++ str;
  b_modified = true;
}

unfoldable pub overlapping_append : ContiguousBlock → List ℕ → ℕ → ℕ → ContiguousBlock
overlapping_append b str offset end_seq_number = record b {
  next_expected_seq_number = end_seq_number;
  contiguous_block = b.contiguous_block ++ take (length str - offset) (drop offset str);
  b_modified = true;
}

unfoldable pub prepend : ContiguousBlock → List ℕ → ℕ → ℕ → ContiguousBlock
prepend b str size_payload start_seq_number = record b {
  starting_seq_number = start_seq_number;
  contiguous_block = take size_payload str ++ b.contiguous_block;
  b_modified = true;
}
