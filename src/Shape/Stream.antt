-- ===== src/Shape/Stream.antt =====
-- The second pass of kvtransfer/src/parse_block_ragged.cpp, parse_block_flash.cpp and
-- parse_block_dpsk.cpp: a V block for each K block, at a fixed distance from it.
use llumnix_kv.Base.{
  ◌>>=◌, ℕ, ◌+◌, ◌-◌, ◌≡◌, refl, sym, ap, ◌∙◌, List, [], ◌∷◌, ◌++◌, append_assoc, append-nil, map,
  length, at, push_back, length-append, Result, ok, for_range, All, arith,
}
use llumnix_kv.Types.{IpcBlock}

abbrev pub shift : ℕ → ℕ → ℕ → IpcBlock → IpcBlock
shift src dst n b = record {
  src_offset = b.src_offset + src;
  dst_offset = b.dst_offset + dst;
  length = n;
}

-- The element at the front of what is left.
pub at-middle {ℓ} :
    {A : Type ℓ} (done : List A) (x : A) (rest : List A)
    → at (done ++ x ∷ rest) (length done) ≡ ok x
unfolding at
at-middle [] x rest = refl
at-middle (y ∷ done) x rest = at-middle done x rest

module _ (body : ℕ → List IpcBlock → Result (List IpcBlock)) (f : IpcBlock → IpcBlock) where
  -- The body appends the image of a block that it finds at its index.
  abbrev pub Appends : IpcBlock → Type 0
  Appends b =
      (i : ℕ) (blocks : List IpcBlock)
      → at blocks i ≡ ok b
      → body i blocks ≡ ok (push_back blocks (f b))

  -- Over the blocks `todo`, which stand after `done` and before `tail`.
  stream_loop :
      (todo done tail : List IpcBlock)
      → All Appends todo
      → for_range (length todo) (length done) body (done ++ (todo ++ tail))
        ≡ ok (done ++ (todo ++ (tail ++ map f todo)))
  unfolding for_range ◌>>=◌
  stream_loop [] done tail h = ap (λ (l : List IpcBlock). ok (done ++ l)) (sym (append-nil tail))
  stream_loop (b ∷ todo) done tail h =
      rw
        (
          h.0 (length done) (done ++ (b ∷ todo ++ tail)) (at-middle done b (todo ++ tail)),
          moved,
          counted,
        )
        (stream_loop todo (done ++ b ∷ []) (tail ++ f b ∷ []) h.1 ∙ ap ok back)
    where
      moved :
          push_back (done ++ (b ∷ todo ++ tail)) (f b)
          ≡ (done ++ b ∷ []) ++ (todo ++ (tail ++ f b ∷ []))
      moved = simp append_assoc

      counted : length done + 1 ≡ length (done ++ b ∷ [])
      counted = sym (length-append done (b ∷ []))

      back :
          (done ++ b ∷ []) ++ (todo ++ ((tail ++ f b ∷ []) ++ map f todo))
          ≡ done ++ (b ∷ todo ++ (tail ++ (f b ∷ map f todo)))
      back = simp append_assoc

  -- The whole pass, over the blocks that the first pass has added.
  pub stream_total :
      (done new : List IpcBlock)
      → All Appends new
      → for_range (length (done ++ new) - length done) (length done) body (done ++ new)
        ≡ ok (done ++ (new ++ map f new))
  stream_total done new h =
      let count : length (done ++ new) - length done ≡ length new =
        omega (arith, length-append done new) in
      rw count (
        ap (λ (l : List IpcBlock). for_range (length new) (length done) body (done ++ l))
          (sym (append-nil new))
        ∙ stream_loop new done [] h)
