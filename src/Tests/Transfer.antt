-- ===== src/Tests/Transfer.antt =====
-- Transfers of three bytes, of a bitmap and of descriptors, on pages of two bytes.
use ditto.Prelude.{
  ℕ, ◌≡◌, ◌↔◌, refl, Bool, true, false, Option, some, List, [], ◌∷◌, inr, arith, ap, length,
  Succeeds, Returns,
}
use ditto.Prelude.Bytes.{Bytes}
use ditto.Xfer.Messages.{ErrMsg, GetChunkRes}
use ditto.Xfer.Bitmap.{convert_from_bitvec, convert_to_bitvec}
use ditto.Xfer.Bitmap.RoundTrip.{convert_to-convert_from}
use ditto.Xfer.Bitmap.Paging.{NextBitmap, fetch_bitmap, remote_get_bitmap}
use ditto.Xfer.Bitmap.OnePage.{fetch_bitmap_lem, remote_get_bitmap_total}
use ditto.Xfer.Chunk.{Hint, HintStatus, SpAnswer, Served, proxy_get_chunk_cb}
use ditto.Xfer.Chunk.Fetch.{Daemons, fetch, Fetched, fetch_whole}
use ditto.Xfer.Chunk.Genuine.{Genuine, receive, receive-Genuine}
use ditto.Xfer.Chunk.Serve.{cached_whole}
use ditto.Xfer.Descriptors.{fetch_descriptors, DescriptorsCall}
use ditto.Xfer.Descriptors.Joined.{joined, joined-fetch_descriptors}

abbrev here : Hint
here = record { hostname = 104 ∷ []; port = 7 }

abbrev served : Served
served = record { stat_cache = []; num_chunks_served = 0; num_bytes_of_chunks_served = 5 }

-- The digest of these daemons is the identity.
abbrev daemons : Daemons
daemons = record {
  send_size = 2;
  compute_chunk_id = λ b. b;
  parse_hint = λ h. HintStatus.gtc_hint here;
  sp_get_chunk = λ id. SpAnswer.sp_chunk id id;
  hostname = 104 ∷ [];
  listen_port = 7;
}

abbrev three : Bytes
three = 1 ∷ 2 ∷ 3 ∷ []

fetch_whole_example : Fetched daemons three three 5 3 (fetch daemons 3 served three ([] ∷ []) 0 [])
fetch_whole_example =
    fetch_whole daemons served three [] [] here three refl refl (omega arith) (omega arith)

abbrev replies : List (Option GetChunkRes)
replies =
    some
      (GetChunkRes.resok (record { offset = 0; chunk_id = three; chunk_data = three; end = true }))
    ∷ []

receive-Genuine_example : Returns (Genuine (λ b. b) three) (receive (λ b. b) three [] replies)
receive-Genuine_example = receive-Genuine (λ b. b) three [] replies

abbrev bits : List Bool
bits = true ∷ false ∷ true ∷ false ∷ false ∷ false ∷ false ∷ false ∷ true ∷ []

convert_to-convert_from_example : convert_to_bitvec (convert_from_bitvec bits) 9 ≡ some bits
convert_to-convert_from_example = convert_to-convert_from bits (omega arith)

-- A page has eight bits, and the bitmap nine.
fetch_bitmap_lem_example :
    fetch_bitmap 2 (λ id. inr bits) 9 (1 ∷ []) 0 []
    ≡ some (NextBitmap.call_error (ErrMsg.returned_error ErrMsg.too_large_offset))
fetch_bitmap_lem_example =
    fetch_bitmap_lem 2 (λ id. inr bits) 1 [] bits 8 refl (omega arith) (omega arith) (omega arith)
      (omega arith)

remote_get_bitmap_total_example : Succeeds (remote_get_bitmap 2 (λ id. inr []) (1 ∷ []) 3)
remote_get_bitmap_total_example =
    remote_get_bitmap_total 2 (λ id. inr []) (1 ∷ []) 3
      (λ bs e. let q : [] ≡ bs = cc in omega (arith, ap (λ (t : List Bool). length t) q))

abbrev descs : List Bytes
descs = (1 ∷ []) ∷ (2 ∷ []) ∷ (3 ∷ []) ∷ []

joined-fetch_descriptors_example :
    (calls : List DescriptorsCall) × (fetch_descriptors 2
        (λ h. HintStatus.gtc_hint here)
        (λ id. inr descs)
        4
        (1 ∷ [])
        ([] ∷ [])
        0
      ≡ some calls)
    × (joined calls ≡ some descs)
joined-fetch_descriptors_example =
    joined-fetch_descriptors 2 (λ h. HintStatus.gtc_hint here) (λ id. inr descs) 1 [] [] [] here
      descs refl refl (omega arith) (omega arith)

abbrev hint_of : Bytes → HintStatus
hint_of [] = HintStatus.other_hint
hint_of (x ∷ xs) = HintStatus.gtc_hint here

cached_whole_example :
    ((proxy_get_chunk_cb 2 served
        (record { desc = three; offset = 2; hints = [] })
        (inr (three, three))).1
      ≡ some (three, three))
    ↔ (◌≡◌ {A = ℕ} 2 0)
cached_whole_example =
    cached_whole 2 served (record { desc = three; offset = 2; hints = [] }) three three
      (omega arith)
