-- ===== src/Tests/Frames.antt =====
-- A frame from an access point with an IP packet of two bytes.
use ditto.Prelude.{ℕ, ◌≡◌, refl, some, List, [], ◌∷◌, ◌++◌, arith, length, Succeeds}
use ditto.Wire.{bytes_at, ntohl_at}
use ditto.Wifi.{
  data_frame, infrastructure, llc, ip_packet, extract_le_16bits, extract_16bits, extract_24bits,
  extract_header_length, handle_llc, handle_body, infrastructure_frame, handle_data_frame, read_fcs,
  handle_80211,
}
use ditto.Wifi.Total.{handle_80211_total}

abbrev address : ℕ → List ℕ
address n = n ∷ 0 ∷ 0 ∷ 0 ∷ 0 ∷ n ∷ []

abbrev frame : List ℕ
frame =
    (0x08 ∷ 0x02 ∷ 7 ∷ 0 ∷ [])
    ++ (address 1
        ++ (address 2
            ++ (address 3
                ++ (0x21 ∷ 0 ∷ 0xaa ∷ 0xaa ∷ 3 ∷ 0 ∷ 0 ∷ 0 ∷ 8 ∷ 0 ∷ 5 ∷ 6 ∷ 9 ∷ 9 ∷ 9 ∷ 9 ∷ []))))

from_access_point :
    handle_80211 length frame 38
    ≡ some (
        data_frame
          (infrastructure
            (record { duration = 7; seq = 2; frag = 1 })
            (address 3)
            (address 1)
            (address 2))
          (llc (ip_packet 2)))
unfolding handle_80211 extract_le_16bits extract_16bits extract_24bits extract_header_length
    handle_llc handle_body infrastructure_frame handle_data_frame read_fcs bytes_at ntohl_at
from_access_point = refl

handle_80211_total_example : Succeeds (handle_80211 length frame 38)
handle_80211_total_example = handle_80211_total length frame 38 (omega arith)
