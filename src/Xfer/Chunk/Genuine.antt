-- ===== src/Xfer/Chunk/Genuine.antt =====
-- A client whose server may reply anything.
use ditto.Prelude.{
  ◌≡◌, refl, sym, Bool, true, false, not, Option, some, none, List, [], ◌∷◌, ◌++◌, length,
  if◌then◌else◌, Returns,
}
use ditto.Prelude.Bytes.{Bytes, bytes_eq, bytes_eq→eq}
use ditto.Xfer.Messages.{ErrMsg, GetChunkRes}
use ditto.Xfer.Chunk.{ConnUse, Next, get_chunk_internal_cb}

module _ (compute_chunk_id : Bytes → Bytes) (id : Bytes) where
  -- The callbacks for one chunk, on what the calls come back with.
  pub receive : Bytes → List (Option GetChunkRes) → Option (ConnUse × Next)
  receive dat [] = none
  receive dat (r ∷ rs) =
      let step = get_chunk_internal_cb compute_chunk_id id dat r in
      elim step.1 [
        | Next.call_error m ↦ some step
        | Next.call_data d bytes ↦ some step
        | Next.get_chunk_int offset dat' ↦ receive dat' rs
      ]

  -- The end of a transfer: the connection is released with the data of the chunk that was asked for,
  -- or an error is reported, and the connection is not released.
  abbrev pub Genuine : ConnUse × Next → Type 0
  Genuine (u, Next.call_data d bytes) =
      (u ≡ ConnUse.released) × (d ≡ id) × (compute_chunk_id bytes ≡ id)
  Genuine (u, Next.call_error m) = ¬ (u ≡ ConnUse.released)
  Genuine (u, Next.get_chunk_int offset dat) = ⊥

  -- One page: whether it is the last one, and whether the digest is the one that was asked for.
  abbrev judge : Bytes → Bool → Bool → ConnUse × Next
  judge bytes end same =
      if end
      then if not same
        then (ConnUse.untouched, Next.call_error ErrMsg.returned_invalid_data)
        else (ConnUse.released, Next.call_data id bytes)
      else (ConnUse.untouched, Next.get_chunk_int (length bytes) bytes)

  judged :
      (bytes : Bytes) (rs : List (Option GetChunkRes)) (end same : Bool)
      → (same ≡ true → compute_chunk_id bytes ≡ id)
      → Returns Genuine (receive bytes rs)
      → Returns Genuine (elim (judge bytes end same).1 [
        | Next.call_error m ↦ some (judge bytes end same)
        | Next.call_data d b ↦ some (judge bytes end same)
        | Next.get_chunk_int offset dat' ↦ receive dat' rs
      ])
  judged bytes rs true true h g = (refl, refl, h refl)
  judged bytes rs true false h g = λ q. absurd cc
  judged bytes rs false same h g = g

  -- Whatever the server replies, and wherever the calls fail: when the client hands over data for a
  -- chunk, it is for the chunk that was asked for, their digest is its identifier, and the
  -- connection is released; when it reports an error, the connection is not released.
  pub receive-Genuine :
      (dat : Bytes) (rs : List (Option GetChunkRes)) → Returns Genuine (receive dat rs)
  unfolding receive get_chunk_internal_cb
  receive-Genuine dat [] = tt
  receive-Genuine dat (none ∷ rs) = λ e. absurd cc
  receive-Genuine dat (some (GetChunkRes.errmsg m) ∷ rs) = λ e. absurd cc
  receive-Genuine dat (some (GetChunkRes.resok r) ∷ rs) =
      let bytes : Bytes = dat ++ r.chunk_data in
      judged bytes rs r.end (bytes_eq id (compute_chunk_id bytes))
        (λ q. sym (bytes_eq→eq id (compute_chunk_id bytes) q)) (receive-Genuine bytes rs)
