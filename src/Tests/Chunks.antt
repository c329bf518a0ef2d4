-- ===== src/Tests/Chunks.antt =====
-- A chunk of four bytes and its packets.
use ditto.Prelude.{
  ℕ, ◌+◌, ◌<◌, ◌≡◌, ◌↔◌, ◌%◌, ◌^◌, refl, Bool, true, ◌||◌, some, List, [], ◌∷◌, ◌==◌, arith,
}
use ditto.Prelude.Bytes.{Bytes, bytes_eq, find}
use ditto.Block.{new_block, append, overlapping_append, prepend}
use ditto.Block.Slices.{segment}
use ditto.Chunk.{
  ReconstructedChunk, absorb, fill_from, place, is_complete, fill_gaps_in_chunk, get_data,
}
use ditto.Chunk.Chain.{Chain}
use ditto.Chunk.Coverage.{covered, covered-place, within, accepted_end}
use ditto.Chunk.Accounts.{stored, total, total-place}
use ditto.Chunk.Complete.{IsChunk, IsPacket, fill_gaps_in_chunk-IsChunk, fill_gaps_in_chunk_done}
use ditto.Chunk.Delivery.{Packet, IsSegment, deliver, held, offset, any_order_delivery}

-- Byte `p` of the chunk is `p`.
abbrev bytes_of : ℕ → ℕ
bytes_of p = p

abbrev flows : List (Bytes × ℕ)
flows = (7 ∷ [], 100) ∷ []

abbrev chunk : ReconstructedChunk
chunk = record {
  chunk_id = 9 ∷ [];
  chunk_length = 4;
  lcb = [];
  flow_seq_map = flows;
  uniquely_contributing_flows = [];
}

abbrev front : Packet
front = record { flow = 7 ∷ []; payload = 0 ∷ 1 ∷ []; size = 2; seq_num = 100 }

abbrev back : Packet
back = record { flow = 7 ∷ []; payload = 2 ∷ 3 ∷ []; size = 2; seq_num = 102 }

abbrev half : ReconstructedChunk
half = record chunk { lcb = append new_block (0 ∷ 1 ∷ []) 2 0 ∷ [] }

fresh-IsChunk : IsChunk bytes_of chunk
fresh-IsChunk = record { positive = omega arith; small = omega arith; chain = tt }

half-Chain : Chain bytes_of 0 4 half.lcb
unfolding append new_block
half-Chain = (
  omega arith,
  record { nonempty = omega arith; extent = refl; agrees = (refl, (refl, tt)); started = refl },
  omega arith,
  tt,
)

half-IsChunk : IsChunk bytes_of half
half-IsChunk = record { positive = omega arith; small = omega arith; chain = half-Chain }

front-IsPacket : IsPacket bytes_of flows 4 front.flow front.payload 2 100
unfolding find bytes_eq
front-IsPacket = record {
  start = 100;
  known = refl;
  whole = refl;
  some_bytes = omega arith;
  fits = omega arith;
  agrees = (refl, (refl, tt));
}

back-IsPacket : IsPacket bytes_of flows 4 back.flow back.payload 2 102
unfolding find bytes_eq
back-IsPacket = record {
  start = 100;
  known = refl;
  whole = refl;
  some_bytes = omega arith;
  fits = omega arith;
  agrees = (refl, (refl, tt));
}

-- The boundaries of the two packets.
abbrev cut : ℕ → Bool
cut p = p == 0 || p == 2 || p == 4

front-IsSegment : IsSegment bytes_of cut flows 4 front
unfolding find offset bytes_eq
front-IsSegment = record { packet = front-IsPacket; boundary = refl; uncut = λ p l h. ground arith }

back-IsSegment : IsSegment bytes_of cut flows 4 back
unfolding find offset bytes_eq
back-IsSegment = record { packet = back-IsPacket; boundary = refl; uncut = λ p l h. ground arith }

backwards : is_complete 4 (deliver chunk 0 (back ∷ front ∷ [])).lcb ≡ true
unfolding is_complete fill_gaps_in_chunk find bytes_eq place append prepend new_block
    overlapping_append absorb fill_from
backwards = refl

any_order_delivery_example :
    (is_complete 4 (deliver chunk 0 (back ∷ front ∷ back ∷ [])).lcb ≡ true)
    ↔ ((p : ℕ) → p < 4 → held p flows (back ∷ front ∷ back ∷ []) ≡ true)
any_order_delivery_example =
    any_order_delivery bytes_of cut flows 4 chunk 0 (back ∷ front ∷ back ∷ []) refl refl refl
      (omega arith) (omega arith) (back-IsSegment, (front-IsSegment, (back-IsSegment, tt)))

second_fill_done : (fill_gaps_in_chunk half back.flow back.payload 2 102 0).b_chunk_done ≡ true
unfolding fill_gaps_in_chunk find bytes_eq place is_complete append new_block overlapping_append
    absorb fill_from
second_fill_done = refl

fill_gaps_in_chunk_done_example :
    get_data (fill_gaps_in_chunk half back.flow back.payload 2 102 0).chunk
    ≡ some (segment bytes_of 0 4)
fill_gaps_in_chunk_done_example =
    fill_gaps_in_chunk_done bytes_of half back.flow back.payload 2 102 0 half-IsChunk back-IsPacket
      second_fill_done

fill_gaps_in_chunk-IsChunk_example :
    IsChunk bytes_of (fill_gaps_in_chunk half back.flow back.payload 2 102 0).chunk
fill_gaps_in_chunk-IsChunk_example =
    fill_gaps_in_chunk-IsChunk bytes_of half back.flow back.payload 2 102 0 half-IsChunk
      back-IsPacket

covered-place_example :
    covered 2 (place (1 ∷ 2 ∷ 3 ∷ []) 3 1 0 half.lcb).blocks
    ≡ covered 2 half.lcb || within 2 1 (accepted_end 1 4 half.lcb)
covered-place_example =
    covered-place bytes_of 2 4 1 3 (1 ∷ 2 ∷ 3 ∷ []) (omega arith) (omega arith) (omega arith) 0 0
      half.lcb half-Chain

total-place_example :
    total (place (1 ∷ 2 ∷ 3 ∷ []) 3 1 0 half.lcb) ≡ (stored half.lcb + 0 + 3) % 2 ^ 64
total-place_example =
    total-place bytes_of 4 1 3 (1 ∷ 2 ∷ 3 ∷ []) (omega arith) (omega arith) 0 0 half.lcb half-Chain
