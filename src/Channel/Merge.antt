-- ===== src/Channel/Merge.antt =====
-- `merge_interval` (kvtransfer/src/channel.cpp) changes how the bytes are cut into blocks, never which
-- byte goes where.
use mathlib.Core.List.{Perm, Permᴰ}
use mathlib.Core.List.Permᴰ
use mathlib.Core.Logic.{∥∥₁_map}
use llumnix_kv.Base.{
  ℕ, ◌+◌, ◌^◌, ◌<◌, ◌≡◌, refl, sym, ap, ◌∙◌, subst, inl, inr, true, List, [], ◌∷◌, ◌++◌,
  append_assoc, append-nil, push_back, u64_lem, Bool-cases, All, arith,
}
use llumnix_kv.Types.{IpcBlock}
use llumnix_kv.Copies.{span, span-append, bytes, bytes-append, bytes-push_back}
use llumnix_kv.Channel.{
  can_merge, Sizes, no_sizes, note, with_length, merge_from, merge_sorted, merge_interval,
}

-- The ends of a block are 64-bit numbers.
pub record Bounded (b : IpcBlock) : Type 0 where
  pub src : b.src_offset + b.length < 2 ^ 64
  pub dst : b.dst_offset + b.length < 2 ^ 64

-- Two blocks that merge lie one after the other at both ends.
pub can_merge_adjacent :
    (p c : IpcBlock)
    → Bounded p
    → can_merge p c ≡ true
    → (c.src_offset ≡ p.src_offset + p.length) × (c.dst_offset ≡ p.dst_offset + p.length)
unfolding can_merge
can_merge_adjacent p c v h = (ground (arith, v.src), ground (arith, v.dst))

merged_bytes :
    (p c : IpcBlock) (zeroed rest : List IpcBlock)
    → c.src_offset ≡ p.src_offset + p.length
    → c.dst_offset ≡ p.dst_offset + p.length
    → bytes zeroed ≡ []
    → bytes (with_length p (p.length + c.length) ∷ (push_back zeroed (with_length c 0) ++ rest))
      ≡ bytes (p ∷ (zeroed ++ c ∷ rest))
unfolding bytes span
merged_bytes p c zeroed rest es ed z =
    rw
      (
        bytes-append (push_back zeroed (with_length c 0)) rest,
        bytes-push_back zeroed (with_length c 0),
        bytes-append zeroed (c ∷ rest),
        z,
        es,
        ed,
        span-append p.src_offset p.dst_offset p.length c.length,
      )
      (append_assoc (span p.src_offset p.dst_offset p.length) _ (bytes rest))

-- Where they do not merge, what follows is as before.
kept_bytes :
    (p c : IpcBlock) (zeroed rest out : List IpcBlock)
    → bytes out ≡ bytes (c ∷ rest)
    → bytes (p ∷ (zeroed ++ out)) ≡ bytes (p ∷ (zeroed ++ c ∷ rest))
unfolding bytes
kept_bytes p c zeroed rest out h =
    ap (◌++◌ (span p.src_offset p.dst_offset p.length))
      (bytes-append zeroed out ∙ ap (◌++◌ (bytes zeroed)) h ∙ sym (bytes-append zeroed (c ∷ rest)))

pub merge_from-bytes :
    (rest : List IpcBlock) (pre : IpcBlock) (zeroed : List IpcBlock) (s : Sizes)
    → Bounded pre
    → All Bounded rest
    → bytes zeroed ≡ []
    → bytes (merge_from pre zeroed rest s).0 ≡ bytes (pre ∷ (zeroed ++ rest))
unfolding merge_from bytes span
merge_from-bytes [] pre zeroed s v a z =
    ap (λ (l : List IpcBlock). bytes (pre ∷ l)) (sym (append-nil zeroed))
merge_from-bytes (c ∷ rest) pre zeroed s v a z = elim (Bool-cases (can_merge pre c)) [
  | inl joined ↦
      let (es, ed) = can_merge_adjacent pre c v joined in
      let fit : pre.length + c.length < 2 ^ 64 = omega (arith, a.0.src, es) in
      rw (joined, u64_lem fit)
        (merge_from-bytes rest (with_length pre (pre.length + c.length))
            (push_back zeroed (with_length c 0)) s
            (record { src = omega (arith, a.0.src, es); dst = omega (arith, a.0.dst, ed) }) a.1
            (bytes-push_back zeroed (with_length c 0) ∙ rw z refl)
          ∙ merged_bytes pre c zeroed rest es ed z)
  | inr apart ↦
      rw apart (
        kept_bytes pre c zeroed rest _
          (merge_from-bytes rest c [] (note s pre.length) a.0 a.1 refl))
]

bytes-perm : {xs ys : List IpcBlock} → Permᴰ xs ys → Permᴰ (bytes xs) (bytes ys)
unfolding bytes
bytes-perm Permᴰ.nil = Permᴰ.nil
bytes-perm (Permᴰ.cons {a = a} {l₁ = l₁} {l₂ = l₂} e d) =
    subst (λ (b : IpcBlock). Permᴰ (bytes (a ∷ l₁)) (bytes (b ∷ l₂))) e
      (Permᴰ.append_left (span a.src_offset a.dst_offset a.length) (bytes-perm d))
bytes-perm (Permᴰ.swap {a = a} {b = b} {l = l} e₁ e₂) =
    subst (λ (w : IpcBlock × IpcBlock). Permᴰ (bytes (a ∷ b ∷ l)) (bytes (w.0 ∷ w.1 ∷ l)))
      (λ i. (e₂ i, e₁ i)) swapped
  where
    swapped : Permᴰ (bytes (a ∷ b ∷ l)) (bytes (b ∷ a ∷ l))
    swapped =
        subst (λ (w : List (ℕ × ℕ) × List (ℕ × ℕ)). Permᴰ w.0 w.1)
          (λ i. (
            append_assoc (span a.src_offset a.dst_offset a.length)
                (span b.src_offset b.dst_offset b.length) (bytes l) i,
            append_assoc (span b.src_offset b.dst_offset b.length)
                (span a.src_offset a.dst_offset a.length) (bytes l) i,
          ))
          (Permᴰ.append_right (bytes l) (
            Permᴰ.append_comm (span a.src_offset a.dst_offset a.length)
              (span b.src_offset b.dst_offset b.length)))
bytes-perm (Permᴰ.trans d₁ d₂) = Permᴰ.trans (bytes-perm d₁) (bytes-perm d₂)

All-perm {ℓ κ} : {A : Type ℓ} (P : A → Type κ) {xs ys : List A} → Permᴰ xs ys → All P ys → All P xs
All-perm P Permᴰ.nil h = tt
All-perm P (Permᴰ.cons e d) h = (subst P (sym e) h.0, All-perm P d h.1)
All-perm P (Permᴰ.swap e₁ e₂) h = (subst P (sym e₁) h.1.0, (subst P (sym e₂) h.0, h.1.1))
All-perm P (Permᴰ.trans d₁ d₂) h = All-perm P d₁ (All-perm P d₂ h)

merge_sorted-bytes :
    (input : List IpcBlock) → All Bounded input → bytes (merge_sorted input).0 ≡ bytes input
unfolding bytes
merge_sorted-bytes [] a = refl
merge_sorted-bytes (b ∷ bs) a = merge_from-bytes bs b [] no_sizes a.0 a.1 refl

-- Whatever order `std::sort` leaves the blocks in, the bytes that the blocks copy after
-- `merge_interval` are those of the input, in another order, when no end of a block is past the 64
-- bits.
pub merge_interval-bytes :
    (sort : List IpcBlock → List IpcBlock) (input : List IpcBlock)
    → Perm (sort input) input
    → All Bounded input
    → Perm (bytes (merge_interval sort input).0) (bytes input)
unfolding merge_interval
merge_interval-bytes sort input h a = ∥∥₁_map h (λ d.
    subst (λ (l : List (ℕ × ℕ)). Permᴰ l (bytes input))
      (sym (merge_sorted-bytes (sort input) (All-perm Bounded d a))) (bytes-perm d))
