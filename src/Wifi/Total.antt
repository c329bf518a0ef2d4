-- ===== src/Wifi/Total.antt =====
-- No frame makes the code read outside it.
use ditto.Prelude.{
  ℕ, zero, suc, ◌+◌, ◌-◌, ◌≤◌, ◌<◌, ◌≡◌, ◌*◌, refl, true, false, ◌&&◌, ◌||◌, not, Option, none,
  some, List, [], ◌∷◌, arith, length, drop, length-drop, get_elem?, ltb, ◌==◌, Succeeds,
  >>=-Succeeds, if-Succeeds, ◌>>=◌,
}
use ditto.Prelude.Bytes.{Bytes}
use ditto.Wire.ChunkId.{ntohl_at_total, bytes_at_within}
use ditto.Wifi.{
  DataHeader, FrameControl, extract_le_16bits, extract_16bits, extract_24bits,
  extract_header_length, handle_llc, handle_body, infrastructure_frame, wds_frame,
  handle_data_frame, read_fcs, handle_80211, fc_type, fc_to_ds, fc_from_ds, fc_wep,
}

then_some :
    {A : Type 0} {B : Type 0} (m : Option A) (f : A → Option B)
    → ((a : A) → Succeeds (f a))
    → Succeeds m
    → Succeeds (m >>= f)
then_some none f h g = g
then_some (some a) f h g = h a

byte_at : (p : List ℕ) (i : ℕ) → i < length p → (b : ℕ) × (get_elem? p i ≡ some b)
byte_at [] i h = absurd (omega arith)
byte_at (b ∷ p) zero h = (b, refl)
byte_at (b ∷ p) (suc i) h = byte_at p i (omega arith)

le_16bits_at : (p : List ℕ) (i : ℕ) → i + 2 ≤ length p → (n : ℕ) × (extract_le_16bits p i ≡ some n)
unfolding extract_le_16bits
le_16bits_at p i h =
    let (lo, e) = byte_at p i (omega arith) in
    let (hi, f) = byte_at p (i + 1) (omega arith) in (hi * 256 + lo, rw (e, f) refl)

be_16bits_at : (p : List ℕ) (i : ℕ) → i + 2 ≤ length p → (n : ℕ) × (extract_16bits p i ≡ some n)
unfolding extract_16bits
be_16bits_at p i h =
    let (hi, e) = byte_at p i (omega arith) in
    let (lo, f) = byte_at p (i + 1) (omega arith) in (hi * 256 + lo, rw (e, f) refl)

be_24bits_at : (p : List ℕ) (i : ℕ) → i + 3 ≤ length p → (n : ℕ) × (extract_24bits p i ≡ some n)
unfolding extract_24bits
be_24bits_at p i h =
    let (a, e) = byte_at p i (omega arith) in
    let (bc, f) = be_16bits_at p (i + 1) (omega arith) in (a * 256 * 256 + bc, rw (e, f) refl)

handle_llc_total :
    (p : List ℕ) (len : ℕ) → (7 ≤ len → len + 4 ≤ length p) → Succeeds (handle_llc p len)
unfolding handle_llc
handle_llc_total p len h =
    if-Succeeds (ltb len 7) _ _ (λ _. tt)
      (λ long.
        let room : 8 ≤ length p = ground (arith, h) in
        let (a, e) = byte_at p 0 (omega arith) in
        let (b, f) = byte_at p 1 (omega arith) in
        let (c, g) = byte_at p 2 (omega arith) in
        let (oui, k) = be_24bits_at p 3 (omega arith) in
        let (type, l) = be_16bits_at p 6 (omega arith) in
        >>=-Succeeds _ _ a e (
          >>=-Succeeds _ _ b f (
            >>=-Succeeds _ _ c g (
              >>=-Succeeds _ _ oui k (
                >>=-Succeeds _ _ type l (
                  if-Succeeds (not (oui == 0) && not (oui == 0xf8)) _ _ (λ _. tt)
                    (λ _. if-Succeeds (type == 0x0800) _ _ (λ _. tt) (λ _. tt))))))))

handle_body_total :
    (p : List ℕ) (len fc hdrlen : ℕ) (hdr : DataHeader)
    → len ≤ length p
    → Succeeds (handle_body p len fc hdrlen hdr)
unfolding handle_body
handle_body_total p len fc hdrlen hdr h =
    if-Succeeds (fc_wep fc) _ _ (λ _. tt)
      (λ _.
        then_some (handle_llc (drop hdrlen p) (len - hdrlen - 4)) _ (λ _. tt)
          (handle_llc_total (drop hdrlen p) (len - hdrlen - 4)
            (λ l. omega (arith, length-drop hdrlen p))))

infrastructure_total :
    (p : List ℕ) (len fc : ℕ) (control : FrameControl) (sa_at da_at bssid_at : ℕ)
    → len ≤ length p
    → sa_at + 6 ≤ length p
    → da_at + 6 ≤ length p
    → bssid_at + 6 ≤ length p
    → Succeeds (infrastructure_frame p len fc control sa_at da_at bssid_at)
unfolding infrastructure_frame
infrastructure_total p len fc control sa_at da_at bssid_at h a b c =
    >>=-Succeeds _ _ _ (bytes_at_within p sa_at 6 a) (
      >>=-Succeeds _ _ _ (bytes_at_within p da_at 6 b)
        (>>=-Succeeds _ _ _ (bytes_at_within p bssid_at 6 c) (handle_body_total p len fc 24 _ h)))

wds_total :
    (p : List ℕ) (len fc : ℕ) (control : FrameControl)
    → len ≤ length p
    → 30 ≤ length p
    → Succeeds (wds_frame p len fc control)
unfolding wds_frame
wds_total p len fc control h l = >>=-Succeeds _ _ _ (bytes_at_within p 4 6 (omega arith)) (
    >>=-Succeeds _ _ _ (bytes_at_within p 10 6 (omega arith)) (
      >>=-Succeeds _ _ _ (bytes_at_within p 16 6 (omega arith)) (
        >>=-Succeeds _ _ _ (bytes_at_within p 24 6 (omega arith))
          (handle_body_total p len fc 30 _ h))))

data_header_length : (fc : ℕ) → (fc_type fc == 2) ≡ true → 24 ≤ extract_header_length fc
unfolding extract_header_length
data_header_length fc e = ground arith

wds_header_length :
    (fc : ℕ)
    → (fc_type fc == 2) ≡ true
    → (not (fc_to_ds fc) && not (fc_from_ds fc)) ≡ false
    → (not (fc_to_ds fc) && fc_from_ds fc) ≡ false
    → (fc_to_ds fc && not (fc_from_ds fc)) ≡ false
    → extract_header_length fc ≡ 30
unfolding extract_header_length
wds_header_length fc e f g h = ground arith

data_frame_total :
    (p : List ℕ) (len fc : ℕ)
    → len ≤ length p
    → (fc_type fc == 2) ≡ true
    → extract_header_length fc ≤ len
    → Succeeds (handle_data_frame p len fc)
unfolding handle_data_frame
data_frame_total p len fc h t l =
    let room = data_header_length fc t in
    let (du, e) = le_16bits_at p 2 (omega arith) in
    let (seq_ctl, f) = le_16bits_at p 22 (omega arith) in
    >>=-Succeeds _ _ du e (
      >>=-Succeeds _ _ seq_ctl f (
        if-Succeeds (not (fc_to_ds fc) && not (fc_from_ds fc)) _ _ (λ _. tt)
          (λ a.
            if-Succeeds (not (fc_to_ds fc) && fc_from_ds fc) _ _
              (λ _.
                infrastructure_total p len fc _ 16 4 10 h (omega arith) (omega arith) (omega arith))
              (λ b.
                if-Succeeds (fc_to_ds fc && not (fc_from_ds fc)) _ _
                  (λ _.
                    infrastructure_total p len fc _ 10 16 4 h (omega arith) (omega arith)
                      (omega arith))
                  (λ c. wds_total p len fc _ h (omega (arith, wds_header_length fc t a b c)))))))

module _ (crc32_802 : Bytes → ℕ) where
  read_fcs_total :
      (p : List ℕ) (len hdrlen : ℕ) → len ≤ length p → Succeeds (read_fcs crc32_802 p len hdrlen)
  unfolding read_fcs
  read_fcs_total p len hdrlen h =
      if-Succeeds (ltb len (hdrlen + 4)) _ _ (λ _. tt)
        (λ long.
          let (n, e) = ntohl_at_total p (len - 4) (ground arith) in
          let l : 0 + (len - 4) ≤ length p = omega arith in
          >>=-Succeeds _ _ n e (>>=-Succeeds _ _ _ (bytes_at_within p 0 (len - 4) l) tt))

  -- Whatever an 802.11 frame holds, with a length up to that of the captured bytes: handling it
  -- returns, and so reads nothing outside them, the frame check sequence and its sum included.
  pub handle_80211_total :
      (p : List ℕ) (len : ℕ) → len ≤ length p → Succeeds (handle_80211 crc32_802 p len)
  unfolding handle_80211
  handle_80211_total p len h =
      if-Succeeds (ltb len 2) _ _ (λ _. tt)
        (λ long.
          let (fc, e) = le_16bits_at p 0 (ground arith) in
          >>=-Succeeds _ _ fc e (
            if-Succeeds (ltb len 2 || ltb len (extract_header_length fc)) _ _ (λ _. tt)
              (λ whole.
                then_some (read_fcs crc32_802 p len (extract_header_length fc)) _
                  (λ fcs.
                    if-Succeeds (fc_type fc == 2) _ _
                      (λ t. data_frame_total p len fc h t (ground arith)) (λ _. tt))
                  (read_fcs_total p len (extract_header_length fc) h))))
