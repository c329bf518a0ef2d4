-- ===== src/Sniffer/Grep/Response.antt =====
-- A block that starts with a whole response.
use ditto.Prelude.{
  ℕ, ◌+◌, ◌≤◌, ◌<◌, ◌≡◌, ◌^◌, refl, true, some, List, [], ◌∷◌, ◌++◌, arith, length, drop,
  drop-append, length-append, add32, leb, ltb, ◌==◌, ◌&&◌, >>=_step,
}
use ditto.Prelude.Bytes.{Bytes}
use ditto.Block.{ContiguousBlock}
use ditto.Wire.{rpc_header, mask_size_in_bytes, at_mask, get_length_from_byte_stream}
use ditto.Wire.Response.{response, response-append, mark_length, at_mask-response}
use ditto.Sniffer.{SniffTcp, send_chunk_to_sniffer_plugin}
use ditto.Sniffer.Report.{put_chunk, send-response}
use ditto.Sniffer.Grep.{grep_from, trim, grep_contiguous_block_for_chunks}

grep_hit :
    (c size len : ℕ) (p : List ℕ)
    → c ≡ rpc_header
    → 32 < size
    → get_length_from_byte_stream (c ∷ p) ≡ some len
    → at_mask (drop 8 (c ∷ p)) ≡ some true
    → len < 2 ^ 24
    → len + 4 ≤ size
    → grep_from size (c ∷ p) 0 ≡ some (some (0, len + 4))
unfolding grep_from
grep_hit c size len p mark room measured masked short fits = rw (start) (
    >>=_step (get_length_from_byte_stream (c ∷ p)) _ len measured
      (>>=_step (at_mask (drop 8 (c ∷ p))) _ true masked (rw (stop, inside) refl)))
  where
    start : (c == rpc_header && ltb (0 + 3) size && ltb (0 + 8 + mask_size_in_bytes) size) ≡ true
    start = ground arith

    stop : add32 0 (len + 4) ≡ len + 4
    stop = omega arith

    inside : leb (len + 4) size ≡ true
    inside = ground arith

module _ (len xid hi lo : ℕ) (id bytes : Bytes) (tail rest : List ℕ) (short : len < 2 ^ 24)
    (long : 1048 ≤ len) (id_size : length id ≡ 20) (data_size : 1024 ≤ length bytes)
    (data_fits : length bytes < 2 ^ 32)
    (whole_size : length (response len xid hi lo id bytes tail) ≡ len + 4) where
  abbrev whole : List ℕ
  whole = response len xid hi lo id bytes tail

  one_response : whole ++ rest ≡ response len xid hi lo id bytes (tail ++ rest)
  one_response = response-append len xid hi lo id bytes tail rest

  room : length (whole ++ rest) ≡ len + 4 + length rest
  room = omega (arith, length-append whole rest, whole_size)

  measured : get_length_from_byte_stream (whole ++ rest) ≡ some len
  measured =
      rw one_response
        (mark_length len xid hi lo id bytes (tail ++ rest) short long id_size data_size data_fits)

  masked : at_mask (drop 8 (whole ++ rest)) ≡ some true
  masked = rw one_response (at_mask-response len xid hi lo id bytes (tail ++ rest))

  grep_first : grep_from (length (whole ++ rest)) (whole ++ rest) 0 ≡ some (some (0, len + 4))
  unfolding response
  grep_first =
      grep_hit 0x80 (length (whole ++ rest)) len _ refl (omega (arith, room)) measured masked short
        (omega (arith, room))

  -- A stored block that starts with a whole response, a record of less than 2 ^ 24 bytes with its
  -- mark: one search returns, gives the plugin the response's data, and leaves in the block exactly
  -- the bytes behind the record, with its start moved by the length of the record.
  pub grep-response :
      (object_bytes : ContiguousBlock → List ℕ) (s : SniffTcp) (b : ContiguousBlock)
      → b.contiguous_block ≡ whole ++ rest
      → grep_contiguous_block_for_chunks object_bytes s b
        ≡ some (
          put_chunk s bytes,
          [],
          record b {
            starting_seq_number = add32 b.starting_seq_number (len + 4);
            contiguous_block = rest;
          },
        )
  unfolding grep_contiguous_block_for_chunks trim
  grep-response object_bytes s b e =
      >>=_step (grep_from (length b.contiguous_block) b.contiguous_block 0) _ (some (0, len + 4))
        (rw e grep_first)
        (>>=_step (send_chunk_to_sniffer_plugin s (b.contiguous_block ++ (0 ∷ []))) _
          (put_chunk s bytes) sent (rw (e, drop-append (len + 4) whole rest whole_size) refl))
    where
      sent :
          send_chunk_to_sniffer_plugin s (b.contiguous_block ++ (0 ∷ [])) ≡ some (put_chunk s bytes)
      sent =
          rw (e, one_response, response-append len xid hi lo id bytes (tail ++ rest) (0 ∷ []))
            (send-response len xid hi lo id bytes ((tail ++ rest) ++ (0 ∷ [])) short long id_size
              data_size data_fits s)
