-- ===== src/Sniffer/Report.antt =====
-- What the plugin is given: the data of a response, and nothing else.
use ditto.Prelude.{
  ℕ, ◌≤◌, ◌<◌, ◌≡◌, ◌^◌, refl, true, some, List, [], ◌∷◌, ◌++◌, add32, add64, length,
}
use ditto.Prelude.Bytes.{Bytes, find}
use ditto.Chunk.{ReconstructedChunk, get_data}
use ditto.Wire.Response.{response, extract-response, bytes_at-data, response-append}
use ditto.Sniffer.{SniffTcp, send_chunk_to_sniffer_plugin, report}

-- One more call of the plugin, with these bytes as a whole chunk.
abbrev pub put_chunk : SniffTcp → Bytes → SniffTcp
put_chunk s bytes = record s {
  num_chunks_sniffed = add32 s.num_chunks_sniffed 1;
  num_bytes_of_chunks_sniffed = add64 s.num_bytes_of_chunks_sniffed (length bytes);
  put_chunks = record { dat = bytes; end = true } ∷ s.put_chunks;
}

module _ (len xid hi lo : ℕ) (id bytes : Bytes) (tail : List ℕ) (short : len < 2 ^ 24)
    (long : 1048 ≤ len) (id_size : length id ≡ 20) (data_size : 1024 ≤ length bytes)
    (data_fits : length bytes < 2 ^ 32) where
  pub send-response :
      (s : SniffTcp)
      → send_chunk_to_sniffer_plugin s (response len xid hi lo id bytes tail)
        ≡ some (put_chunk s bytes)
  unfolding send_chunk_to_sniffer_plugin
  send-response s =
      rw
        (
          extract-response len xid hi lo id bytes tail short long id_size data_size data_fits,
          bytes_at-data len xid hi lo id bytes tail short long id_size data_size data_fits,
        )
        refl

-- A known chunk whose data are a response, with a mark from 1048 to 2 ^ 24 - 1, an identifier of 20
-- bytes and at least 1024 bytes of data: reporting it returns, and gives the plugin exactly the
-- response's data, marked as the end of the chunk, with one more chunk and their bytes counted.
pub report-response :
    (s : SniffTcp) (cid : Bytes) (rc : ReconstructedChunk) (len xid hi lo : ℕ) (id bytes : Bytes)
    (tail : List ℕ)
    → len < 2 ^ 24
    → 1048 ≤ len
    → length id ≡ 20
    → 1024 ≤ length bytes
    → length bytes < 2 ^ 32
    → find cid s.chunks ≡ some rc
    → get_data rc ≡ some (response len xid hi lo id bytes tail)
    → report s cid ≡ some (put_chunk s bytes)
unfolding report
report-response s cid rc len xid hi lo id bytes tail short long id_size data_size data_fits known
      whole =
    rw (known, whole, response-append len xid hi lo id bytes tail (0 ∷ []))
      (send-response len xid hi lo id bytes (tail ++ (0 ∷ [])) short long id_size data_size
        data_fits s)
