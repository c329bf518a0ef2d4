-- ===== src/Chunk/Complete.antt =====
-- When a chunk is reported complete, and what its data is then.
use ditto.Prelude.{
  ℕ, suc, ◌+◌, ◌≤◌, ◌<◌, ◌≡◌, ◌↔◌, refl, sym, ap, ◌∙◌, ◌^◌, true, false, ◌&&◌, some, inl, inr, List,
  [], ◌∷◌, arith, length, not, sub32, ltb, take_all, Bool-cases,
}
use ditto.Prelude.Bytes.{Bytes, find}
use ditto.Block.{ContiguousBlock}
use ditto.Block.Slices.{Agrees, segment, Agrees-segment}
use ditto.Chunk.{
  ReconstructedChunk, Placed, place, is_complete, fill_from, fill_gaps_in_chunk, get_data,
}
use ditto.Chunk.Chain.{Chain, place-Chain}
use ditto.Chunk.Coverage.{covered}

-- The blocks of the chunk lie in its length, in order and apart, and hold bytes of the chunk `d`.
pub record IsChunk (d : ℕ → ℕ) (rc : ReconstructedChunk) : Type 0 where
  pub positive : 0 < rc.chunk_length
  pub small : rc.chunk_length < 2 ^ 31
  pub chain : Chain d 0 rc.chunk_length rc.lcb

-- The packet comes from a flow of the chunk, and its bytes are bytes of the chunk.
pub record IsPacket (d : ℕ → ℕ) (flows : List (Bytes × ℕ)) (len : ℕ) (flow : Bytes)
    (payload : List ℕ) (size seq_num : ℕ) : Type 0 where
  pub start : ℕ
  pub known : find flow flows ≡ some start
  pub whole : size ≡ length payload
  pub some_bytes : 0 < size
  pub fits : sub32 seq_num start + size ≤ len
  pub agrees : Agrees d (sub32 seq_num start) payload

not_covered :
    (d : ℕ → ℕ) (p lo hi : ℕ) (bs : List ContiguousBlock)
    → p < lo
    → Chain d lo hi bs
    → covered p bs ≡ false
not_covered d p lo hi [] l c = refl
not_covered d p lo hi (b ∷ bs) l c = ground (
  arith,
  c.0,
  c.1.nonempty,
  not_covered d p (suc b.next_expected_seq_number) hi bs (omega (arith, c.1.nonempty)) c.3,
)

-- For well-formed blocks of a chunk with at least one byte: the first block is as long as the chunk
-- exactly when every position of the chunk is held.
pub is_complete_iff :
    (d : ℕ → ℕ) (len : ℕ) (bs : List ContiguousBlock)
    → 0 < len
    → Chain d 0 len bs
    → (is_complete len bs ≡ true) ↔ ((p : ℕ) → p < len → covered p bs ≡ true)
unfolding is_complete
is_complete_iff d len [] l c = ((λ e. cc), (λ h. cc (h 0 l)))
is_complete_iff d len (b ∷ bs) l c = (
  (λ e p h. ground (arith, c.1.extent, c.2)),
  (λ h. elim (Bool-cases (ltb b.next_expected_seq_number len)) [
    | inl short ↦ ground (
      arith,
      h b.next_expected_seq_number,
      not_covered d b.next_expected_seq_number (suc b.next_expected_seq_number) len bs (omega arith)
          c.3,
    )
    | inr long ↦ ground (
      arith,
      c.1.extent,
      h 0 l,
      not_covered d 0 (suc b.next_expected_seq_number) len bs (omega arith) c.3,
    )
  ]),
)

-- Then the first block starts the chunk, and its bytes are those of the chunk.
is_complete-data :
    (d : ℕ → ℕ) (len : ℕ) (bs : List ContiguousBlock)
    → Chain d 0 len bs
    → is_complete len bs ≡ true
    → (b : ContiguousBlock) × (rest : List ContiguousBlock) × (bs ≡ b ∷ rest)
      × (b.contiguous_block ≡ segment d 0 len)
unfolding is_complete
is_complete-data d len [] c e = cc
is_complete-data d len (b ∷ bs) c e = (
  b,
  bs,
  refl,
  sym (take_all len b.contiguous_block full.1)
      ∙ Agrees-segment d 0 len b.contiguous_block (rw full.0 at c.1.agrees) full.2,
)
  where
    full :
        (b.starting_seq_number ≡ 0)
        × (length b.contiguous_block ≤ len)
        × (len ≤ length b.contiguous_block)
    full = ground (arith, c.1.extent, c.2)

module _ (rc : ReconstructedChunk) (flow : Bytes) (payload : List ℕ) (size seq_num dups start : ℕ)
    (known : find flow rc.flow_seq_map ≡ some start) where
  abbrev pub placed : Placed
  placed = place payload size (sub32 seq_num start) dups rc.lcb

  fill_known : fill_gaps_in_chunk rc flow payload size seq_num dups ≡ fill_from rc flow placed
  unfolding fill_gaps_in_chunk
  fill_known = rw (known, fill_gaps_in_chunk)

  pub lcb-fill_known :
      (fill_gaps_in_chunk rc flow payload size seq_num dups).chunk.lcb ≡ placed.blocks
  unfolding fill_from
  lcb-fill_known = rw fill_known (ground arith)

  -- A chunk is reported complete when the packet brought something new and the first block is full.
  done-fill_known :
      (fill_gaps_in_chunk rc flow payload size seq_num dups).b_chunk_done
      ≡ not placed.b_duplicate && is_complete rc.chunk_length placed.blocks
  unfolding fill_from
  done-fill_known = rw fill_known (ground arith)

get_data_lem :
    (rc : ReconstructedChunk) (b : ContiguousBlock) (bs : List ContiguousBlock)
    → rc.lcb ≡ b ∷ bs
    → get_data rc ≡ some b.contiguous_block
unfolding get_data
get_data_lem rc b bs e = rw (e, get_data)

-- Filling changes neither the length of the chunk nor its identifier nor where its flows start.
pub fill_gaps_in_chunk_keeps :
    (rc : ReconstructedChunk) (flow : Bytes) (payload : List ℕ) (size seq_num dups : ℕ)
    → let rc' = (fill_gaps_in_chunk rc flow payload size seq_num dups).chunk in
      (rc'.chunk_length ≡ rc.chunk_length)
      × (rc'.flow_seq_map ≡ rc.flow_seq_map)
      × (rc'.chunk_id ≡ rc.chunk_id)
unfolding fill_gaps_in_chunk fill_from
fill_gaps_in_chunk_keeps rc flow payload size seq_num dups = ground arith

module _ (d : ℕ → ℕ) (rc : ReconstructedChunk) (flow : Bytes) (payload : List ℕ)
    (size seq_num dups : ℕ) (c : IsChunk d rc)
    (p : IsPacket d rc.flow_seq_map rc.chunk_length flow payload size seq_num) where
  fill-Chain :
      Chain d 0 rc.chunk_length (fill_gaps_in_chunk rc flow payload size seq_num dups).chunk.lcb
  fill-Chain = rw (lcb-fill_known rc flow payload size seq_num dups p.start p.known) (
      place-Chain d rc.chunk_length (sub32 seq_num p.start) size payload (omega (arith, c.small))
        p.whole p.some_bytes p.fits p.agrees 0 dups rc.lcb (omega arith) c.chain)

  -- A packet of a chunk keeps it well formed: its blocks lie inside it, in order and apart, and
  -- hold its bytes at their positions.
  pub fill_gaps_in_chunk-IsChunk :
      IsChunk d (fill_gaps_in_chunk rc flow payload size seq_num dups).chunk
  fill_gaps_in_chunk-IsChunk =
      let k = fill_gaps_in_chunk_keeps rc flow payload size seq_num dups in
      record { positive = rw k.0 c.positive; small = rw k.0 c.small; chain = rw k.0 fill-Chain }

  -- A packet of a well-formed chunk: if it completes the chunk, the data that `get_data` returns
  -- are the chunk's bytes, from the first to the last.
  pub fill_gaps_in_chunk_done :
      (fill_gaps_in_chunk rc flow payload size seq_num dups).b_chunk_done ≡ true
      → get_data (fill_gaps_in_chunk rc flow payload size seq_num dups).chunk
        ≡ some (segment d 0 rc.chunk_length)
  fill_gaps_in_chunk_done e =
      let full : is_complete rc.chunk_length rc'.lcb ≡ true =
        rw (lcb-fill_known rc flow payload size seq_num dups p.start p.known)
          (ground (arith, done-fill_known rc flow payload size seq_num dups p.start p.known)) in
      let (b, rest, split, bytes) = is_complete-data d rc.chunk_length rc'.lcb fill-Chain full in
      get_data_lem rc' b rest split ∙ ap some bytes
    where
      rc' : ReconstructedChunk
      rc' = (fill_gaps_in_chunk rc flow payload size seq_num dups).chunk
