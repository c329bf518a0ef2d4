-- ===== src/Chunk/Delivery.antt =====
-- Packets of one segmentation of the chunk, from any of its flows, in any order and any number of times.
use ditto.Prelude.{
  ℕ, ◌+◌, ◌<◌, ◌≡◌, ◌↔◌, refl, sym, ap, ◌∙◌, ◌^◌, Bool, true, false, ◌||◌, some, none, List, [],
  ◌∷◌, arith, All, sub32,
}
use ditto.Prelude.Bytes.{Bytes, find}
use ditto.Block.{ContiguousBlock, new_block, append, overlapping_append, prepend}
use ditto.Chunk.{ReconstructedChunk, absorb, prune, place, is_complete, fill_gaps_in_chunk}
use ditto.Chunk.Cases.{absorb_cases, before_cases, inside_cases, place_cases}
use ditto.Chunk.Chain.{Chain}
use ditto.Chunk.Coverage.{within, covered, accepted_end, covered-place}
use ditto.Chunk.Complete.{
  IsChunk, IsPacket, lcb-fill_known, fill_gaps_in_chunk_keeps, fill_gaps_in_chunk-IsChunk,
  is_complete_iff,
}

-- Every block starts at a boundary of the segmentation.
abbrev pub Starts : (ℕ → Bool) → List ContiguousBlock → Type 0
Starts cut = All (λ b. cut b.starting_seq_number ≡ true)

-- No boundary lies inside the packet.
abbrev pub Uncut : (ℕ → Bool) → ℕ → ℕ → Type 0
Uncut cut n e = (p : ℕ) → n < p → p < e → cut p ≡ false

module _ (cut : ℕ → Bool) where
  Starts-absorb :
      (b : ContiguousBlock) (bs : List ContiguousBlock) (dups : ℕ)
      → cut b.starting_seq_number ≡ true
      → Starts cut bs
      → Starts cut (absorb b bs dups).blocks
  Starts-absorb b [] dups h s = unfold absorb in (h, tt)
  Starts-absorb b (x ∷ cs) dups h s =
      absorb_cases (λ q. Starts cut q.blocks) b x cs dups
        (λ reached longer. unfold overlapping_append in (h, s.1))
        (λ shorter. Starts-absorb b cs _ h s.1) (λ apart. (h, s))

  Starts-place :
      (payload : List ℕ) (size n dups : ℕ) (bs : List ContiguousBlock)
      → n + size < 2 ^ 32
      → cut n ≡ true
      → Starts cut bs
      → Starts cut (place payload size n dups bs).blocks
  Starts-place payload size n dups [] w h s = unfold place append new_block in (h, tt)
  Starts-place payload size n dups (b ∷ bs) w h s =
      place_cases (λ q. Starts cut q.blocks) payload size n dups b bs
        (λ left.
          before_cases (λ q. Starts cut q.blocks) payload size n dups b bs w
            (λ touches. unfold prepend in (h, s.1)) (λ apart. unfold append new_block in (h, s))
            (λ reaches. unfold prune prepend in (h, s.1)))
        (λ from in_it.
          inside_cases (λ q. Starts cut q.blocks) payload size n dups b bs w
            (λ more. Starts-absorb _ bs _ (unfold overlapping_append in s.0) s.1) (λ none. s))
        (λ from right. (s.0, Starts-place payload size n dups bs w h s.1))

  -- A packet of the segmentation is never cut off.
  accepted_end-Uncut :
      (d : ℕ → ℕ) (lo hi n e : ℕ) (bs : List ContiguousBlock)
      → Chain d lo hi bs
      → Starts cut bs
      → Uncut cut n e
      → accepted_end n e bs ≡ e
  accepted_end-Uncut d lo hi n e [] c s u = refl
  accepted_end-Uncut d lo hi n e (b ∷ bs) c s u = ground (
    arith,
    c.1.nonempty,
    u b.starting_seq_number,
    s.0,
    accepted_end-Uncut d _ hi n e bs c.3 s.1 u,
  )

pub record Packet : Type 0 where
  pub flow : Bytes
  pub payload : List ℕ
  pub size : ℕ
  pub seq_num : ℕ

-- `fill_gaps_in_chunk` on each packet in turn.
abbrev pub deliver : ReconstructedChunk → ℕ → List Packet → ReconstructedChunk
deliver rc dups [] = rc
deliver rc dups (k ∷ ks) =
    let f = fill_gaps_in_chunk rc k.flow k.payload k.size k.seq_num dups in
    deliver f.chunk f.num_duplicate_bytes ks

-- Where the packet starts in the chunk.
unfoldable pub offset : List (Bytes × ℕ) → Packet → ℕ
offset flows k = elim (find k.flow flows) [ none ↦ 0 | some start ↦ sub32 k.seq_num start ]

-- One of the packets holds position `p`.
abbrev pub held : ℕ → List (Bytes × ℕ) → List Packet → Bool
held p flows [] = false
held p flows (k ∷ ks) = within p (offset flows k) (offset flows k + k.size) || held p flows ks

pub record IsSegment (d : ℕ → ℕ) (cut : ℕ → Bool) (flows : List (Bytes × ℕ)) (len : ℕ) (k : Packet)
    : Type 0 where
  pub packet : IsPacket d flows len k.flow k.payload k.size k.seq_num
  pub boundary : cut (offset flows k) ≡ true
  pub uncut : Uncut cut (offset flows k) (offset flows k + k.size)

module _ (d : ℕ → ℕ) (cut : ℕ → Bool) where
  module _ (rc : ReconstructedChunk) (k : Packet) (dups : ℕ) (c : IsChunk d rc)
      (v : IsSegment d cut rc.flow_seq_map rc.chunk_length k) where
    offset_lem : offset rc.flow_seq_map k ≡ sub32 k.seq_num v.packet.start
    unfolding offset
    offset_lem = rw (v.packet.known, offset)

    covered-fill :
        (p : ℕ)
        → Starts cut rc.lcb
        → covered p (fill_gaps_in_chunk rc k.flow k.payload k.size k.seq_num dups).chunk.lcb
          ≡ covered p rc.lcb
            || within p (offset rc.flow_seq_map k) (offset rc.flow_seq_map k + k.size)
    covered-fill p s =
        let n = sub32 k.seq_num v.packet.start in
        rw
          (
            lcb-fill_known rc k.flow k.payload k.size k.seq_num dups v.packet.start v.packet.known,
            offset_lem,
          )
          (covered-place d p rc.chunk_length n k.size k.payload (omega (arith, c.small))
              v.packet.fits v.packet.some_bytes 0 dups rc.lcb c.chain
            ∙ ap (λ e. covered p rc.lcb || within p n e)
                (accepted_end-Uncut cut d 0 rc.chunk_length n (n + k.size) rc.lcb c.chain s
                  (rw offset_lem at v.uncut)))

    Starts-fill :
        Starts cut rc.lcb
        → Starts cut (fill_gaps_in_chunk rc k.flow k.payload k.size k.seq_num dups).chunk.lcb
    Starts-fill s =
        rw (lcb-fill_known rc k.flow k.payload k.size k.seq_num dups v.packet.start v.packet.known)
          (Starts-place cut k.payload k.size (sub32 k.seq_num v.packet.start) dups rc.lcb
            (omega (arith, c.small, v.packet.fits)) (rw offset_lem at v.boundary) s)

  module _ (flows : List (Bytes × ℕ)) (len : ℕ) where
    -- The positions held after the packets are those held before and those of the packets.
    covered-deliver :
        (p : ℕ) (rc : ReconstructedChunk) (dups : ℕ) (ks : List Packet)
        → rc.flow_seq_map ≡ flows
        → rc.chunk_length ≡ len
        → IsChunk d rc
        → Starts cut rc.lcb
        → All (IsSegment d cut flows len) ks
        → covered p (deliver rc dups ks).lcb ≡ covered p rc.lcb || held p flows ks
    covered-deliver p rc dups [] e f c s h = ground arith
    covered-deliver p rc dups (k ∷ ks) e f c s h =
        let v : IsSegment d cut rc.flow_seq_map rc.chunk_length k = rw (e, f) h.0 in
        let f' = fill_gaps_in_chunk rc k.flow k.payload k.size k.seq_num dups in
        let keeps = fill_gaps_in_chunk_keeps rc k.flow k.payload k.size k.seq_num dups in
        covered-deliver p f'.chunk f'.num_duplicate_bytes ks (keeps.1 ∙ e) (keeps.0 ∙ f)
          (fill_gaps_in_chunk-IsChunk d rc k.flow k.payload k.size k.seq_num dups c v.packet)
          (Starts-fill rc k dups c v s) h.1
        ∙ ground (arith, rw e at (covered-fill rc k dups c v p s))

    deliver-IsChunk :
        (rc : ReconstructedChunk) (dups : ℕ) (ks : List Packet)
        → rc.flow_seq_map ≡ flows
        → rc.chunk_length ≡ len
        → IsChunk d rc
        → All (IsSegment d cut flows len) ks
        → IsChunk d (deliver rc dups ks) × ((deliver rc dups ks).chunk_length ≡ len)
    deliver-IsChunk rc dups [] e f c h = (c, f)
    deliver-IsChunk rc dups (k ∷ ks) e f c h =
        let v : IsSegment d cut rc.flow_seq_map rc.chunk_length k = rw (e, f) h.0 in
        let f' = fill_gaps_in_chunk rc k.flow k.payload k.size k.seq_num dups in
        let keeps = fill_gaps_in_chunk_keeps rc k.flow k.payload k.size k.seq_num dups in
        deliver-IsChunk f'.chunk f'.num_duplicate_bytes ks (keeps.1 ∙ e) (keeps.0 ∙ f)
          (fill_gaps_in_chunk-IsChunk d rc k.flow k.payload k.size k.seq_num dups c v.packet) h.1

    -- An empty chunk of 1 to 2 ^ 31 - 1 bytes is filled by packets of one segmentation of it, from
    -- any of its flows, in any order and any number of times: afterwards its first block is as long
    -- as the chunk exactly when each of its positions is in one of the packets.
    pub any_order_delivery :
        (rc : ReconstructedChunk) (dups : ℕ) (ks : List Packet)
        → rc.flow_seq_map ≡ flows
        → rc.chunk_length ≡ len
        → rc.lcb ≡ []
        → 0 < len
        → len < 2 ^ 31
        → All (IsSegment d cut flows len) ks
        → (is_complete len (deliver rc dups ks).lcb ≡ true)
          ↔ ((p : ℕ) → p < len → held p flows ks ≡ true)
    any_order_delivery rc dups ks e f g l w h = (
      (λ done p q. sym (covers p) ∙ full.0 done p q),
      (λ all. full.1 (λ p q. covers p ∙ all p q)),
    )
      where
        fresh : IsChunk d rc
        fresh = record { positive = rw f l; small = rw f w; chain = rw g tt }

        covers : (p : ℕ) → covered p (deliver rc dups ks).lcb ≡ held p flows ks
        covers p =
            covered-deliver p rc dups ks e f fresh (rw g tt) h
            ∙ ap (λ bs. covered p bs || held p flows ks) g

        full :
            (is_complete len (deliver rc dups ks).lcb ≡ true)
            ↔ ((p : ℕ) → p < len → covered p (deliver rc dups ks).lcb ≡ true)
        full =
            let (c, q) = deliver-IsChunk rc dups ks e f fresh h in
            is_complete_iff d len (deliver rc dups ks).lcb l (rw q at c.chain)
