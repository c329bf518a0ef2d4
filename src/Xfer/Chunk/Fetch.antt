-- ===== src/Xfer/Chunk/Fetch.antt =====
-- The client's requests for a chunk and the server's replies, one after the other.
use mathlib.Core.List.{append_assoc}
use ditto.Prelude.{
  ℕ, zero, suc, ◌+◌, ◌-◌, ◌≤◌, ◌<◌, ◌^◌, ◌%◌, min, ◌≡◌, refl, ap, ◌∙◌, true, false, not, Option,
  some, none, List, [], ◌∷◌, ◌++◌, length, take, drop, length-append, length-drop, take_all,
  take-drop, ltb, leb, add32, add64, arith, if◌then◌else◌, ◌>>=◌, Bool-cases, inl, inr, drop-append,
  >>=_step,
}
use ditto.Prelude.Bytes.{Bytes, bytes_eq}
use ditto.Xfer.Messages.{ErrMsg, GetChunkArg, GetChunkRes}
use ditto.Xfer.Chunk.{
  Hint, HintStatus, SpAnswer, Served, Answer, Next, reply_page, remote_get_chunk_cb, count_request,
  remote_get_chunk, get_chunk_internal_cb,
}

-- What the two daemons are given: the size of a page, the digest, the reader of hints, the answers
-- of the server's storage plugin, and the address in the server's own hint.
pub record Daemons : Type 0 where
  pub send_size : ℕ
  pub compute_chunk_id : Bytes → Bytes
  pub parse_hint : Bytes → HintStatus
  pub sp_get_chunk : Bytes → SpAnswer
  pub hostname : Bytes
  pub listen_port : ℕ

-- A request at the server, whose storage plugin answers.
pub serve : Daemons → Served → GetChunkArg → Option (Served × Answer)
serve e s arg = do
  (s', last_try) ← remote_get_chunk e.parse_hint e.hostname e.listen_port s arg
  let h = remote_get_chunk_cb e.send_size s' arg last_try true (e.sp_get_chunk arg.desc)
  some (h.served, h.answer)

-- The loop, on fuel: a request for each unit of it.
pub fetch : Daemons → ℕ → Served → Bytes → List Bytes → ℕ → Bytes → Option (Served × Next)
fetch e zero s id hints offset dat = none
fetch e (suc n) s id hints offset dat = do
  (s', a) ← serve e s (record { desc = id; offset = offset; hints = hints })
  elim a [
    | Answer.get_chunk_from_next_hop d hs ↦ none
    | Answer.reply r ↦ elim (get_chunk_internal_cb e.compute_chunk_id id dat (some r)).1 [
      | Next.call_error m ↦ some (s', Next.call_error m)
      | Next.call_data d bytes ↦ some (s', Next.call_data d bytes)
      | Next.get_chunk_int offset' dat' ↦ fetch e n s' id hints offset' dat'
    ]
  ]

-- What a client should end with when it was sent these data.
abbrev pub verdict : Daemons → Bytes → Bytes → Next
verdict e id whole =
    if bytes_eq id (e.compute_chunk_id whole)
    then Next.call_data id whole
    else Next.call_error ErrMsg.returned_invalid_data

-- The counters after one page of `n` bytes.
abbrev after_page : Served → Bytes → ℕ → Served
after_page s id n =
    let s' = count_request s id in
    record s' {
      num_chunks_served = add32 s'.num_chunks_served 1;
      num_bytes_of_chunks_served = add64 s'.num_bytes_of_chunks_served n;
    }

-- The loop ends with the verdict, and the bytes are counted.
abbrev pub Fetched : Daemons → Bytes → Bytes → ℕ → ℕ → Option (Served × Next) → Type 0
Fetched e id whole counted n r =
    (s' : Served) × (r ≡ some (s', verdict e id whole))
    × (s'.num_bytes_of_chunks_served ≡ (counted + n) % 2 ^ 64)

module _ (e : Daemons) (id first : Bytes) (hs : List Bytes) (hint : Hint)
    (known : e.parse_hint first ≡ HintStatus.gtc_hint hint) where
  serve_page :
      (s : Served) (dat rest : Bytes)
      → e.sp_get_chunk id ≡ SpAnswer.sp_chunk id (dat ++ rest)
      → 0 < length rest
      → serve e s (record { desc = id; offset = length dat; hints = first ∷ hs })
        ≡ some (
          after_page s id (min (length rest) e.send_size),
          Answer.reply (
              GetChunkRes.resok (record {
                offset = length dat;
                chunk_id = id;
                chunk_data = take (min (length rest) e.send_size) rest;
                end = not (ltb (min (length rest) e.send_size) (length rest));
              })),
        )
  unfolding serve remote_get_chunk remote_get_chunk_cb reply_page count_request
  serve_page s dat rest h l =
      let n : length (dat ++ rest) - length dat ≡ length rest =
        omega (arith, length-append dat rest) in
      let b : leb (length (dat ++ rest)) (length dat) ≡ false =
        ground (arith, length-append dat rest) in
      rw (known, h, b, n, drop-append (length dat) dat rest refl) refl

  module _ (s : Served) (dat rest : Bytes)
      (storage : e.sp_get_chunk id ≡ SpAnswer.sp_chunk id (dat ++ rest))
      (more : 0 < length rest) where
    fetch_more :
        (n : ℕ)
        → ltb (min (length rest) e.send_size) (length rest) ≡ true
        → fetch e (suc n) s id (first ∷ hs) (length dat) dat
          ≡ fetch e n
              (after_page s id (min (length rest) e.send_size))
              id
              (first ∷ hs)
              (length (dat ++ take (min (length rest) e.send_size) rest))
              (dat ++ take (min (length rest) e.send_size) rest)
    unfolding fetch get_chunk_internal_cb count_request
    fetch_more n b =
        >>=_step (serve e s (record { desc = id; offset = length dat; hints = first ∷ hs })) _ _
          (serve_page s dat rest storage more) (rw b refl)

    fetch_last :
        (n : ℕ)
        → ltb (min (length rest) e.send_size) (length rest) ≡ false
        → fetch e (suc n) s id (first ∷ hs) (length dat) dat
          ≡ some (
            after_page s id (min (length rest) e.send_size),
            verdict e id (dat ++ take (min (length rest) e.send_size) rest),
          )
    unfolding fetch get_chunk_internal_cb count_request
    fetch_last n b =
        >>=_step (serve e s (record { desc = id; offset = length dat; hints = first ∷ hs })) _ _
          (serve_page s dat rest storage more)
          (elim (Bool-cases
            (bytes_eq id (e.compute_chunk_id (dat ++ take (min (length rest) e.send_size) rest)))) [
              | inl q ↦ rw (b, q) refl
              | inr q ↦ rw (b, q) refl
            ])

  imp-Fetched :
      {whole whole' : Bytes} (c n c' n' : ℕ) {r r' : Option (Served × Next)}
      → whole ≡ whole'
      → r' ≡ r
      → (c + n) % 2 ^ 64 ≡ (c' + n') % 2 ^ 64
      → Fetched e id whole c n r
      → Fetched e id whole' c' n' r'
  imp-Fetched c n c' n' w q z (s', a, b) =
      (s', q ∙ a ∙ ap (λ (t : Bytes). some (s', verdict e id t)) w, b ∙ z)

  module _ (positive : 0 < e.send_size) where
    fetch_from :
        (fuel : ℕ) (s : Served) (dat rest : Bytes)
        → e.sp_get_chunk id ≡ SpAnswer.sp_chunk id (dat ++ rest)
        → 0 < length rest
        → length rest ≤ fuel
        → Fetched e id
            (dat ++ rest)
            s.num_bytes_of_chunks_served
            (length rest)
            (fetch e fuel s id (first ∷ hs) (length dat) dat)
    unfolding count_request
    fetch_from zero s dat rest h l f = absurd (omega arith)
    fetch_from (suc n) s dat rest h l f =
        let k : ℕ = min (length rest) e.send_size in
        let page : Bytes = take k rest in
        elim (Bool-cases (ltb k (length rest))) [
          | inl b ↦
              let whole : (dat ++ page) ++ drop k rest ≡ dat ++ rest =
                append_assoc dat page (drop k rest)
                ∙ ap (λ (t : Bytes). dat ++ t) (take-drop k rest) in
              imp-Fetched (add64 s.num_bytes_of_chunks_served k) (length (drop k rest))
                s.num_bytes_of_chunks_served (length rest) whole (fetch_more s dat rest h l n b)
                (omega (arith, length-drop k rest))
                (fetch_from n (after_page s id k) (dat ++ page) (drop k rest) (rw whole h)
                  (ground (arith, length-drop k rest)) (omega (arith, length-drop k rest)))
          | inr b ↦
              let all : take k rest ≡ rest = take_all k rest (ground arith) in
              (
                after_page s id k,
                fetch_last s dat rest h l n b
                    ∙ ap (λ (t : Bytes). some (after_page s id k, verdict e id (dat ++ t))) all,
                ground arith,
              )
        ]

-- A chunk that is not empty, which the server's storage has, first hint of the request valid, pages
-- of at least one byte: with one request for each byte at most, the loop of client and server ends;
-- with the whole data if their digest is the identifier, and with the error for invalid data
-- otherwise. The server has counted exactly the bytes of the chunk, modulo 2 ^ 64.
pub fetch_whole :
    (e : Daemons) (s : Served) (id first : Bytes) (hs : List Bytes) (hint : Hint) (bytes : Bytes)
    → e.parse_hint first ≡ HintStatus.gtc_hint hint
    → e.sp_get_chunk id ≡ SpAnswer.sp_chunk id bytes
    → 0 < e.send_size
    → 0 < length bytes
    → Fetched e id bytes s.num_bytes_of_chunks_served
        (length bytes)
        (fetch e (length bytes) s id (first ∷ hs) 0 [])
fetch_whole e s id first hs hint bytes known storage positive more =
    fetch_from e id first hs hint known positive (length bytes) s [] bytes storage more
      (omega arith)
