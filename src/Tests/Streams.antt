-- ===== src/Tests/Streams.antt =====
-- A response with 1024 zeros, alone and in a stream; blocks of a flow; the text of a flow.
use ditto.Prelude.{
  ℕ, zero, suc, ◌≢◌, ◌<◌, ◌≡◌, ◌↔◌, refl, true, ◌&&◌, ◌||◌, not, some, List, [], ◌∷◌, ◌++◌, arith,
  drop,
}
use ditto.Prelude.Bytes.{Bytes, bytes_eq}
use ditto.Block.{ContiguousBlock, new_block, append}
use ditto.Chunk.Coverage.{covered, within}
use ditto.Wire.{mask, search_header, at_mask, bytes_at, rpc_header_in_stream, get_chunk_id}
use ditto.Wire.Response.{response}
use ditto.Wire.Header.{IsHeader, rpc_header_in_stream_sound}
use ditto.Wire.ChunkId.{get_chunk_id-response}
use ditto.FlowId.{FlowId, equal, to_string}
use ditto.FlowId.Text.{IsFlow, to_string_iff_equal}
use ditto.Flows.{insert_block}
use ditto.Flows.Order.{Ascending, insert_block-Ascending, overlaps, covered-insert_block}

abbrev pub zeros : ℕ → Bytes
zeros zero = []
zeros (suc n) = 0 ∷ zeros n

not_mark : (c : ℕ) → c < 0x80 → c ≢ 0x80
not_mark c h e = omega arith

get_chunk_id-response_example :
    get_chunk_id ((1 ∷ 2 ∷ []) ++ response 1096 1 0 0 (zeros 20) (zeros 1024) []) 1000
    ≡ some (some (zeros 20, 2))
get_chunk_id-response_example =
    get_chunk_id-response (1 ∷ 2 ∷ []) 1096 1 0 0 (zeros 20) (zeros 1024) [] (omega arith)
      (omega arith) refl (omega arith) (omega arith) 1000
      (not_mark 1 (omega arith), (not_mark 2 (omega arith), tt)) (omega arith)

-- A header in front of a stream: the record mark, the transaction and the mask.
abbrev header : List ℕ
header = 0x80 ∷ 0 ∷ 4 ∷ 72 ∷ 0 ∷ 0 ∷ 0 ∷ 1 ∷ mask

header_found : rpc_header_in_stream header 1 ≡ some (some 0)
unfolding rpc_header_in_stream search_header at_mask bytes_at bytes_eq
header_found = refl

rpc_header_in_stream_sound_example : (0 < 1) × IsHeader (drop 0 header)
rpc_header_in_stream_sound_example = rpc_header_in_stream_sound header 1 0 header_found

abbrev local : FlowId
local = record {
  src_ip = b'1' ∷ b'.' ∷ b'2' ∷ [];
  dst_ip = b'3' ∷ [];
  src_port = 80;
  dst_port = 12;
}

character : (c : ℕ) → c < 58 → c ≢ b':'
character c h e = omega arith

local-IsFlow : IsFlow local
local-IsFlow = record {
  src_port_small = omega arith;
  dst_port_small = omega arith;
  src_ip_text = (
    character b'1' (omega arith),
    (character b'.' (omega arith), (character b'2' (omega arith), tt)),
  );
  dst_ip_text = (character b'3' (omega arith), tt);
}

to_string_iff_equal_example : (to_string local ≡ to_string local) ↔ (equal local local ≡ true)
to_string_iff_equal_example = to_string_iff_equal local local local-IsFlow local-IsFlow

abbrev bytes_of : ℕ → ℕ
bytes_of p = p

abbrev later : List ContiguousBlock
later = append new_block (5 ∷ 6 ∷ []) 2 5 ∷ []

later-Ascending : Ascending bytes_of 0 later
unfolding append new_block
later-Ascending = (
  omega arith,
  record { nonempty = omega arith; extent = refl; agrees = (refl, (refl, tt)); started = refl },
  tt,
)

insert_block-Ascending_example : Ascending bytes_of 0 (insert_block (3 ∷ 4 ∷ []) 2 3 later)
insert_block-Ascending_example =
    insert_block-Ascending bytes_of 3 2 (3 ∷ 4 ∷ []) (omega arith) refl (omega arith)
      (refl, (refl, tt)) 0 later (omega arith) later-Ascending

covered-insert_block_example :
    covered 4 (insert_block (4 ∷ 5 ∷ []) 2 4 later)
    ≡ covered 4 later || (not (overlaps 4 6 later) && within 4 4 6)
covered-insert_block_example =
    covered-insert_block 4 bytes_of 4 2 (4 ∷ 5 ∷ []) (omega arith) (omega arith) 0 later
      later-Ascending
