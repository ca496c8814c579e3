-- ===== src/Stub/Marks.antt =====
-- Every `stride`-th bit: what the loops of `compute_valid_ranks_pd` (kvtransfer/src/tx_stub.cpp) set.
use native.Mathlib.Nat.{mul-div_left, mul-mod_left, div-add-mod'}
use llumnix_kv.Base.{
  ℕ, zero, suc, ◌+◌, ◌*◌, ◌/◌, ◌%◌, ◌<◌, ◌≤◌, ◌≡◌, refl, sym, ap, ◌∙◌, ◌⊎◌, inl, inr, Bool, true,
  false, ◌&&◌, List, [], ◌∷◌, min, length, get_or, take, replicate, set, u32, u32_lem, ltb, lt→ltb,
  ◌==◌, if◌then◌else◌, ok, for_range_total, mul_mono, page_same, place_same, page_room, dec_lt,
  ℕ_discrete, arith,
}
use llumnix_kv.Env.{max_tp_size}
use llumnix_kv.Shape.{count}
use llumnix_kv.Stub.Ranks.{set_bit, set_every}

-- Bit `x`, when the first `n` multiples of `stride` are set.
abbrev pub marked : ℕ → ℕ → ℕ → Bool
marked n stride x = x % stride == 0 && ltb (x / stride) n

pub record Marks (n stride : ℕ) (bits : List Bool) : Type 0 where
  pub size : length bits ≡ max_tp_size
  pub bit : (x : ℕ) → x < max_tp_size → get_or bits x false ≡ marked n stride x

-- The next rank of the same group, or the first of the next one.
next_place :
    (r stride : ℕ)
    → 0 < stride
    → (((r + 1) / stride ≡ r / stride) × (0 < (r + 1) % stride))
      ⊎ (((r + 1) / stride ≡ r / stride + 1) × ((r + 1) % stride ≡ 0))
next_place r stride pos = elim (dec_lt (r % stride + 1) stride) [
  | yes lt ↦ inl (page_same r stride 1 pos lt, let e = place_same r stride 1 pos lt in omega arith)
  | no ge ↦
      let e : r + 1 ≡ (r / stride + 1) * stride =
        omega (arith, div-add-mod' r stride, page_room r stride pos) in
      inr (
        ap (λ (w : ℕ). w / stride) e ∙ mul-div_left (r / stride + 1) pos,
        ap (λ (w : ℕ). w % stride) e ∙ mul-mod_left (r / stride + 1) stride,
      )
]

count-take-suc :
    (bits : List Bool) (r : ℕ)
    → count (take (suc r) bits) ≡ count (take r bits) + (if get_or bits r false then 1 else 0)
count-take-suc [] zero = refl
count-take-suc [] (suc r) = refl
count-take-suc (true ∷ bits) zero = refl
count-take-suc (false ∷ bits) zero = refl
count-take-suc (true ∷ bits) (suc r) = omega (arith, count-take-suc bits r)
count-take-suc (false ∷ bits) (suc r) = count-take-suc bits r

-- How many bits are set below a rank.
pub count-Marks :
    (n stride : ℕ) (bits : List Bool)
    → 0 < stride
    → Marks n stride bits
    → (r : ℕ) → r < max_tp_size
    → count (take (suc r) bits) ≡ min n (r / stride + 1)
count-Marks n stride bits pos m zero h =
    rw (count-take-suc bits zero, m.bit 0 h, zero_div, zero_mod) (ground arith)
  where
    zero_div : 0 / stride ≡ 0
    zero_div = ap (λ (w : ℕ). w / stride) (omega arith) ∙ mul-div_left 0 pos

    zero_mod : 0 % stride ≡ 0
    zero_mod = ap (λ (w : ℕ). w % stride) (omega arith) ∙ mul-mod_left 0 stride
count-Marks n stride bits pos m (suc r) h =
    let ih = count-Marks n stride bits pos m r (omega arith) in
    count-take-suc bits (suc r) ∙ elim (next_place r stride pos) [
      | inl (q, p) ↦ rw (ih, m.bit (suc r) h) (ground arith)
      | inr (q, p) ↦ rw (ih, m.bit (suc r) h) (ground arith)
    ]

length-set : (bits : List Bool) (i : ℕ) → length (set bits i true) ≡ length bits
length-set [] i = refl
length-set (b ∷ bits) zero = refl
length-set (b ∷ bits) (suc i) = ap suc (length-set bits i)

get_or-set :
    (bits : List Bool) (i x : ℕ)
    → i < length bits
    → get_or (set bits i true) x false ≡ (if x == i then true else get_or bits x false)
get_or-set [] i x h = absurd (omega arith)
get_or-set (b ∷ bits) zero zero h = refl
get_or-set (b ∷ bits) zero (suc x) h = ground arith
get_or-set (b ∷ bits) (suc i) zero h = ground arith
get_or-set (b ∷ bits) (suc i) (suc x) h = get_or-set bits i x (omega arith) ∙ ground arith

-- One more multiple.
marked_suc :
    (i stride x : ℕ)
    → 0 < stride
    → marked (i + 1) stride x ≡ (if x == i * stride then true else marked i stride x)
marked_suc i stride x pos = elim (ℕ_discrete x (i * stride)) [
  | yes e ↦
      let q : x / stride ≡ i = ap (λ (w : ℕ). w / stride) e ∙ mul-div_left i pos in
      let m : x % stride ≡ 0 = ap (λ (w : ℕ). w % stride) e ∙ mul-mod_left i stride in ground arith
  | no ne ↦ elim (ℕ_discrete (x / stride) i) [
    | yes q ↦
        let split : i * stride + x % stride ≡ x =
          ap (λ (w : ℕ). w * stride + x % stride) (sym q) ∙ div-add-mod' x stride in
        ground arith
    | no nq ↦ ground arith
  ]
]

get_or-replicate : (n x : ℕ) → get_or (replicate n false) x false ≡ false
get_or-replicate zero x = refl
get_or-replicate (suc n) zero = refl
get_or-replicate (suc n) (suc x) = get_or-replicate n x

-- The loop sets the multiples.
pub set_every_total :
    (n stride : ℕ)
    → 0 < stride
    → n * stride ≤ max_tp_size
    → (bits : List Bool) × (set_every n stride ≡ ok bits) × Marks n stride bits
unfolding set_every set_bit
set_every_total n stride pos fit =
    for_range_total (λ i bits. Marks i stride bits) (λ i bits. set_bit (u32 (i * stride)) bits) n
      round n 0 (replicate max_tp_size false) (omega arith)
      (record { size = refl; bit = λ x h. get_or-replicate max_tp_size x ∙ ground arith })
  where
    round :
        (i : ℕ) (bits : List Bool)
        → i < n
        → Marks i stride bits
        → (out : List Bool) × (set_bit (u32 (i * stride)) bits ≡ ok out) × Marks (i + 1) stride out
    round i bits lt m =
        let room : i * stride < max_tp_size =
          omega (arith, mul_mono (i + 1) n stride (omega arith)) in
        let within : i * stride < length bits = omega (arith, m.size) in
        (
          set bits (i * stride) true,
          rw (u32_lem {n = i * stride} (omega arith), lt→ltb (i * stride) (length bits) within)
              refl,
          record {
            size = length-set bits (i * stride) ∙ m.size;
            bit = λ x h.
                get_or-set bits (i * stride) x within
                ∙ rw (m.bit x h) (sym (marked_suc i stride x pos));
          },
        )
