-- ===== src/Flows/Order.antt =====
-- The blocks of a flow stay true to its stream, and start in ascending order.
use ditto.Prelude.{
  ℕ, suc, ◌+◌, ◌≤◌, ◌<◌, ◌≡◌, refl, ◌∙◌, ◌^◌, Bool, false, ◌&&◌, ◌||◌, List, [], ◌∷◌, arith, length,
  length-append, length-take, not, add32, ltb, ◌==◌, if◌then◌else◌, take,
}
use ditto.Block.{ContiguousBlock, new_block, append, append_string, prepend}
use ditto.Block.Slices.{Agrees, Agrees-append, Agrees-take}
use ditto.Block.Order.{IsBlock, new_block-IsBlock, prepend-IsBlock}
use ditto.Flows.{merge_next, insert_block}
use ditto.Chunk.Coverage.{within, covered}

abbrev pub Ascending : (ℕ → ℕ) → ℕ → List ContiguousBlock → Type 0
Ascending d lo [] = Unit {0}
Ascending d lo (b ∷ bs) =
    (lo ≤ b.starting_seq_number) × IsBlock d b × Ascending d (suc b.starting_seq_number) bs

-- Case rules for the loop, for packets that end below 2 ^ 32.
module _ (P : List ContiguousBlock → Type 0) (payload : List ℕ) (size n : ℕ) (b : ContiguousBlock)
    (bs : List ContiguousBlock) (small : n + size < 2 ^ 32) where
  insert_cases :
      (n < b.next_expected_seq_number
        → n + size ≡ b.starting_seq_number
        → P (prepend b payload size n ∷ bs))
      → (n < b.next_expected_seq_number
          → n + size < b.starting_seq_number
          → P (append new_block payload size n ∷ b ∷ bs))
      → (n < b.next_expected_seq_number → b.starting_seq_number < n + size → P (b ∷ bs))
      → (n ≡ b.next_expected_seq_number → P (merge_next (append b payload size (add32 n size)) bs))
      → (b.next_expected_seq_number < n → P (b ∷ insert_block payload size n bs))
      → P (insert_block payload size n (b ∷ bs))
  unfolding insert_block
  insert_cases touches apart overlaps extends behind = ground arith

append-IsBlock :
    (d : ℕ → ℕ) (b : ContiguousBlock) (str : List ℕ) (size n start : ℕ)
    → size ≤ length str
    → n + size < 2 ^ 32
    → n ≡ b.next_expected_seq_number
    → Agrees d n str
    → IsBlock d b
    → IsBlock d (append b str size start)
      × ((append b str size start).starting_seq_number ≡ b.starting_seq_number)
      × ((append b str size start).next_expected_seq_number ≡ n + size)
unfolding append
append-IsBlock d b str size n start l w e h v = rw (v.started) (
  record {
    nonempty = omega (arith, v.nonempty);
    extent =
        omega
          (arith, v.extent, length-append b.contiguous_block (take size str), length-take size str);
    agrees =
        Agrees-append d b.starting_seq_number n b.contiguous_block (take size str)
          (omega (arith, v.extent)) v.agrees (Agrees-take d n size str h);
    started = refl;
  },
  refl,
  omega arith,
)

append_string-IsBlock :
    (d : ℕ → ℕ) (b c : ContiguousBlock)
    → b.next_expected_seq_number ≡ c.starting_seq_number
    → IsBlock d b
    → IsBlock d c
    → IsBlock d (append_string b c.contiguous_block c.next_expected_seq_number)
unfolding append_string
append_string-IsBlock d b c e v w = record {
  nonempty = omega (arith, v.nonempty, w.nonempty);
  extent = omega (arith, v.extent, w.extent, length-append b.contiguous_block c.contiguous_block);
  agrees =
      Agrees-append d b.starting_seq_number c.starting_seq_number b.contiguous_block
        c.contiguous_block (omega (arith, v.extent)) v.agrees w.agrees;
  started = v.started;
}

merge_cases :
    (P : List ContiguousBlock → Type 0) (b : ContiguousBlock) (c : ContiguousBlock)
    (cs : List ContiguousBlock)
    → (b.next_expected_seq_number ≡ c.starting_seq_number
        → P (append_string b c.contiguous_block c.next_expected_seq_number ∷ cs))
    → P (b ∷ c ∷ cs)
    → P (merge_next b (c ∷ cs))
unfolding merge_next
merge_cases P b c cs meets apart = ground arith

module _ (d : ℕ → ℕ) where
  Ascending-mono :
      (lo lo' : ℕ) (bs : List ContiguousBlock) → lo' ≤ lo → Ascending d lo bs → Ascending d lo' bs
  Ascending-mono lo lo' [] h a = tt
  Ascending-mono lo lo' (b ∷ bs) h a = (omega arith, a.1, a.2)

  merge_next-Ascending :
      (lo : ℕ) (b : ContiguousBlock) (bs : List ContiguousBlock)
      → lo ≤ b.starting_seq_number
      → IsBlock d b
      → Ascending d (suc b.starting_seq_number) bs
      → Ascending d lo (merge_next b bs)
  merge_next-Ascending lo b [] l v a = unfold merge_next in (l, v, tt)
  merge_next-Ascending lo b (c ∷ cs) l v a =
      merge_cases (Ascending d lo) b c cs
        (λ meets. (
          unfold append_string in l,
          append_string-IsBlock d b c meets v a.1,
          unfold append_string in
              Ascending-mono (suc c.starting_seq_number) (suc b.starting_seq_number) cs
                (omega arith) a.2,
        ))
        (l, v, a)

  module _ (n size : ℕ) (payload : List ℕ) (small : n + size < 2 ^ 32)
      (whole : size ≡ length payload) (some_bytes : 0 < size) (agrees : Agrees d n payload) where
    fresh : IsBlock d (append new_block payload size n)
    fresh = new_block-IsBlock d payload size n (omega arith) some_bytes small agrees

    -- A packet of a flow's stream that ends below 2 ^ 32: every block of the flow stays true to the
    -- stream, and the blocks stay in ascending order of their starts.
    pub insert_block-Ascending :
        (lo : ℕ) (bs : List ContiguousBlock)
        → lo ≤ n
        → Ascending d lo bs
        → Ascending d lo (insert_block payload size n bs)
    insert_block-Ascending lo [] l a = unfold insert_block append new_block in (l, fresh, tt)
    insert_block-Ascending lo (b ∷ bs) l a =
        insert_cases (Ascending d lo) payload size n b bs small
          (λ inside touches. (
            unfold prepend in l,
            prepend-IsBlock d b payload size n (omega arith) touches agrees a.1,
            unfold prepend in
                Ascending-mono (suc b.starting_seq_number) (suc n) bs (omega arith) a.2,
          ))
          (λ inside apart. (
            unfold append new_block in l,
            fresh,
            unfold append new_block in (omega arith, a.1, a.2),
          ))
          (λ inside overlaps. a)
          (λ extends.
            let (v, start, end) =
              append-IsBlock d b payload size n (add32 n size) (omega arith) small extends agrees
                a.1 in
            merge_next-Ascending lo (append b payload size (add32 n size)) bs (omega arith) v
              (rw start a.2))
          (λ behind. (
            a.0,
            a.1,
            insert_block-Ascending (suc b.starting_seq_number) bs (omega (arith, a.1.nonempty)) a.2,
          ))

-- The packet runs into the first block that ends behind its start. Then none of it is stored.
abbrev pub overlaps : ℕ → ℕ → List ContiguousBlock → Bool
overlaps n e [] = false
overlaps n e (b ∷ bs) =
    if ltb n b.next_expected_seq_number
    then ltb b.starting_seq_number e
    else if n == b.next_expected_seq_number
    then false
    else overlaps n e bs

module _ (p : ℕ) (d : ℕ → ℕ) (n size : ℕ) (payload : List ℕ) (small : n + size < 2 ^ 32)
    (some_bytes : 0 < size) where
  covered-merge_next :
      (b : ContiguousBlock) (bs : List ContiguousBlock) (lo : ℕ)
      → b.starting_seq_number < b.next_expected_seq_number
      → Ascending d lo bs
      → covered p (merge_next b bs)
        ≡ within p b.starting_seq_number b.next_expected_seq_number || covered p bs
  covered-merge_next b [] lo v a = unfold merge_next in refl
  covered-merge_next b (c ∷ cs) lo v a =
      merge_cases
        (λ bs.
          covered p bs
          ≡ within p b.starting_seq_number b.next_expected_seq_number || covered p (c ∷ cs))
        b c cs (λ meets. unfold append_string in ground (arith, a.1.nonempty)) refl

  -- A packet with at least one byte that ends below 2 ^ 32: no position of the flow is lost, and
  -- those of the packet are added, all of them, unless it overlaps the first block that ends behind
  -- its start; then none is.
  pub covered-insert_block :
      (lo : ℕ) (bs : List ContiguousBlock)
      → Ascending d lo bs
      → covered p (insert_block payload size n bs)
        ≡ covered p bs || (not (overlaps n (n + size) bs) && within p n (n + size))
  covered-insert_block lo [] a = unfold insert_block append new_block in ground arith
  covered-insert_block lo (b ∷ bs) a =
      insert_cases
        (λ q.
          covered p q
          ≡ covered p (b ∷ bs) || (not (overlaps n (n + size) (b ∷ bs)) && within p n (n + size)))
        payload size n b bs small (λ inside touches. unfold prepend in ground (arith, a.1.nonempty))
        (λ inside apart. unfold append new_block in ground (arith, a.1.nonempty))
        (λ inside runs_in. ground arith)
        (λ extends.
          covered-merge_next (append b payload size (add32 n size)) bs (suc b.starting_seq_number)
            (unfold append in ground (arith, a.1.started, a.1.nonempty)) a.2
          ∙ unfold append in ground (arith, a.1.started, a.1.nonempty))
        (λ behind. ground (arith, covered-insert_block (suc b.starting_seq_number) bs a.2))
