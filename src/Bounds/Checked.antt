-- ===== src/Bounds/Checked.antt =====
-- What the range checks of parse_block_common.h and channel.cpp accept.
use native.Mathlib.Nat.{le-div_iff_mul-le}
use llumnix_kv.Base.{
  if◌then◌else◌, ℕ, ◌+◌, ◌*◌, ◌/◌, ◌^◌, ◌≤◌, ◌<◌, ◌≡◌, ◌∙◌, refl, ◌↔◌, inl, inr, Bool, false, List,
  [], ◌∷◌, arith, size_max, ltb, Error, ok, err, All, All-append, push_back, Bool-cases, subst,
}
use llumnix_kv.Types.{IpcBlock}
use llumnix_kv.Bounds.{
  IpcBlockOffset, offset_of, validate_ipc_block_bounds, IpcBlockBounds, range_invalid,
  append_ipc_block_checked,
}

-- `length * scale` bytes from `offset` lie within `capacity`.
pub record Fits (length scale offset capacity : ℕ) : Type 0 where
  pub nonempty : 0 < length
  pub within : offset + length * scale ≤ capacity

-- The overflow test, without the division.
no_overflow_iff :
    (length scale : ℕ)
    → 0 < scale
    → (ltb (size_max / scale) length ≡ false) ↔ (length * scale ≤ size_max)
no_overflow_iff length scale hs =
    (λ h. bound.0 (ground arith), λ h. let q = bound.1 h in ground arith)
  where
    bound : (length ≤ size_max / scale) ↔ (length * scale ≤ size_max)
    bound = le-div_iff_mul-le hs

pub range_invalid_iff :
    (length scale offset capacity : ℕ)
    → 0 < scale
    → capacity < 2 ^ 64
    → (range_invalid length scale offset capacity ≡ false) ↔ Fits length scale offset capacity
unfolding range_invalid
range_invalid_iff length scale offset capacity hs hc = (
  λ h. ground (arith, (no_overflow_iff length scale hs).0),
  λ f. let q = (no_overflow_iff length scale hs).1 (omega (arith, f.within)) in ground arith,
)

-- A block whose two ends lie within the layers.
pub record InBounds (bounds : IpcBlockBounds) (b : IpcBlock) : Type 0 where
  pub src : Fits b.length bounds.src_length_scale b.src_offset bounds.src_capacity
  pub dst : Fits b.length 1 b.dst_offset bounds.dst_capacity

-- Bounds as `make_ipc_block_bounds` makes them.
pub record IsBounds (bounds : IpcBlockBounds) : Type 0 where
  pub scale : 0 < bounds.src_length_scale
  pub src_small : bounds.src_capacity < 2 ^ 64
  pub dst_small : bounds.dst_capacity < 2 ^ 64

-- `append_ipc_block_checked` appends a block that is in bounds.
pub append-InBounds :
    (blocks : List IpcBlock) (bounds : IpcBlockBounds) (b : IpcBlock)
    → IsBounds bounds
    → InBounds bounds b
    → append_ipc_block_checked blocks bounds b.src_offset b.dst_offset b.length
      ≡ ok (push_back blocks b)
unfolding append_ipc_block_checked
append-InBounds blocks bounds b v h =
    rw
      (
        (range_invalid_iff _ _ _ _ v.scale v.src_small).1 h.src,
        (range_invalid_iff _ 1 _ _ (omega arith) v.dst_small).1 h.dst,
      )
      refl

-- The same, where the arguments equal the block's fields.
pub append_at :
    (blocks : List IpcBlock) (bounds : IpcBlockBounds) (b : IpcBlock) {s d l : ℕ}
    → IsBounds bounds
    → InBounds bounds b
    → s ≡ b.src_offset
    → d ≡ b.dst_offset
    → l ≡ b.length
    → append_ipc_block_checked blocks bounds s d l ≡ ok (push_back blocks b)
append_at blocks bounds b v h p q r =
    (λ i. append_ipc_block_checked blocks bounds (p i) (q i) (r i))
    ∙ append-InBounds blocks bounds b v h

-- What it appends is in bounds.
pub InBounds-append :
    (blocks : List IpcBlock) (bounds : IpcBlockBounds) (s d l : ℕ) {out : List IpcBlock}
    → IsBounds bounds
    → append_ipc_block_checked blocks bounds s d l ≡ ok out
    → All (InBounds bounds) blocks
    → All (InBounds bounds) out
unfolding append_ipc_block_checked
InBounds-append blocks bounds s d l {out} v e a = elim (Bool-cases src) [
  | inl bad ↦ let e' : err Error.out_of_range ≡ ok out = rw bad at e in cc
  | inr fits ↦ elim (Bool-cases dst) [
    | inl bad ↦ let e' : err Error.out_of_range ≡ ok out = rw (fits, bad) at e in cc
    | inr fits' ↦
        let e' : ok (push_back blocks b) ≡ ok out = rw (fits, fits') at e in
        subst (All (InBounds bounds)) (cc) (
          All-append (InBounds bounds) blocks (b ∷ []) a (
            record {
              src = (range_invalid_iff _ _ _ _ v.scale v.src_small).0 fits;
              dst = (range_invalid_iff _ 1 _ _ (omega arith) v.dst_small).0 fits';
            },
            tt,
          ))
  ]
]
  where
    src : Bool
    src = range_invalid l bounds.src_length_scale s bounds.src_capacity

    dst : Bool
    dst = range_invalid l 1 d bounds.dst_capacity

    b : IpcBlock
    b = record { src_offset = s; dst_offset = d; length = l }

-- With a positive scale and a 64-bit capacity, `validate_ipc_block_bounds` accepts exactly the
-- lists whose every block is non-empty and fits, scaled, between its offset and the end of the
-- layer.
pub validate_iff :
    (blocks : List IpcBlock) (capacity : ℕ) (kind : IpcBlockOffset) (scale : ℕ)
    → 0 < scale
    → capacity < 2 ^ 64
    → (validate_ipc_block_bounds blocks capacity kind scale ≡ ok tt)
      ↔ All (λ b. Fits b.length scale (offset_of kind b) capacity) blocks
unfolding validate_ipc_block_bounds
validate_iff [] capacity kind scale hs hc = (λ h. tt, λ h. refl)
validate_iff (b ∷ bs) capacity kind scale hs hc = elim (Bool-cases bad) [
  | inl e ↦ (
    λ h. let h' : err Error.out_of_range ≡ ok tt = rw (e, if◌then◌else◌) at h in absurd (cc),
    λ a. let e' : bad ≡ false = (range_invalid_iff _ scale _ _ hs hc).1 a.0 in absurd (cc),
  )
  | inr e ↦ rw (e) (
    λ h. (
      (range_invalid_iff _ scale _ _ hs hc).0 e,
      (validate_iff bs capacity kind scale hs hc).0 h,
    ),
    λ a. (validate_iff bs capacity kind scale hs hc).1 a.1,
  )
]
  where
    bad : Bool
    bad = range_invalid b.length scale (offset_of kind b) capacity
