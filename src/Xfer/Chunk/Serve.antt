-- ===== src/Xfer/Chunk/Serve.antt =====
-- A server that is not the last one: the hints that it looks at, and what it caches.
use mathlib.Core.Option.{some-injective}
use ditto.Prelude.{
  ℕ, zero, suc, ◌<◌, ◌≡◌, refl, sym, ap, ◌∙◌, ◌↔◌, Bool, false, Option, some, none, List, [], ◌∷◌,
  length, drop, length-drop, leb, arith, Bool-cases, inl, inr,
}
use ditto.Prelude.Bytes.{Bytes}
use ditto.Xfer.Messages.{GetChunkArg}
use ditto.Xfer.Chunk.{
  HintStatus, Served, reply_page, remote_get_chunk_cb, proxy_get_chunk_cb, count_request, own_hint,
  gtc_in_hint_list, remote_get_chunk,
}

module _ (parse_hint : Bytes → HintStatus) (hostname : Bytes) (port : ℕ) (first : Bytes) where
  gtc_in_hint_list_none :
      (n : ℕ)
      → own_hint parse_hint hostname port first ≡ false
      → gtc_in_hint_list parse_hint hostname port first n ≡ false
  unfolding gtc_in_hint_list
  gtc_in_hint_list_none zero b = refl
  gtc_in_hint_list_none (suc n) b = rw b (gtc_in_hint_list_none n b)

  gtc_in_hint_list-first :
      (n : ℕ)
      → gtc_in_hint_list parse_hint hostname port first (suc n)
        ≡ own_hint parse_hint hostname port first
  unfolding gtc_in_hint_list
  gtc_in_hint_list-first n = elim (Bool-cases (own_hint parse_hint hostname port first)) [
    | inl b ↦ rw b refl
    | inr b ↦ rw b (gtc_in_hint_list_none n b)
  ]

-- A request with a list of hints: the server counts it, and decides whether it is the last one to
-- ask, as if the first hint were the only one.
remote_get_chunk-first :
    (parse_hint : Bytes → HintStatus) (hostname : Bytes) (port : ℕ) (s : Served) (id : Bytes)
    (offset : ℕ) (first : Bytes) (hs : List Bytes)
    → remote_get_chunk parse_hint hostname port s
        (record { desc = id; offset = offset; hints = first ∷ hs })
      ≡ remote_get_chunk parse_hint hostname port s
          (record { desc = id; offset = offset; hints = first ∷ [] })
unfolding remote_get_chunk
remote_get_chunk-first parse_hint hostname port s id offset first hs =
    ap
      (λ (b : Bool). elim (parse_hint first) as (λ x. Option (Served × Bool)) [
        | HintStatus.bad_hint ↦ none
        | HintStatus.other_hint ↦ some (count_request s id, b)
        | HintStatus.gtc_hint res ↦ some (count_request s id, b)
      ])
      (gtc_in_hint_list-first parse_hint hostname port first (length hs)
        ∙ sym (gtc_in_hint_list-first parse_hint hostname port first 0))

drop_short : (n : ℕ) (xs : Bytes) → n < length xs → drop n xs ≡ xs → n ≡ 0
drop_short zero xs h e = refl
drop_short (suc n) xs h e = absurd (omega (arith, ap length e, length-drop (suc n) xs))

-- A proxy that answers a request with an offset inside the chunk: what it then puts into its cache
-- under the chunk's identifier is the whole chunk exactly when the offset is 0.
pub cached_whole :
    (send_size : ℕ) (s : Served) (arg : GetChunkArg) (id bytes : Bytes)
    → arg.offset < length bytes
    → ((proxy_get_chunk_cb send_size s arg (inr (id, bytes))).1 ≡ some (id, bytes))
      ↔ (arg.offset ≡ 0)
unfolding proxy_get_chunk_cb remote_get_chunk_cb reply_page
cached_whole send_size s arg id bytes h =
    let b : leb (length bytes) arg.offset ≡ false = ground arith in
    rw b (
      (λ e. drop_short arg.offset bytes h (ap (λ (p : Bytes × Bytes). p.1) (some-injective _ _ e))),
      (λ e. rw e refl),
    )
