-- ===== src/Stub/Effective.antt =====
-- The effective ranks of the senders (kvtransfer/src/tx_stub.cpp): `compute_valid_ranks_pd` chooses
-- ranks at a fixed stride, and `kvt_tp_rank` numbers them.
use native.Mathlib.Nat.{div-add-mod', div-eq_of_lt-le, le-div_iff_mul-le}
use llumnix_kv.Base.{
  ◌>>=◌, ℕ, zero, suc, ◌+◌, ◌-◌, ◌*◌, ◌/◌, ◌%◌, ◌^◌, ◌<◌, ◌≤◌, ◌≡◌, refl, ap, ◌∙◌, subst, inl, inr,
  Bool, true, false, ◌&&◌, ◌||◌, List, [], ◌∷◌, ◌++◌, min, length, take, replicate, u64, ltb, leb,
  ◌==◌, if◌then◌else◌, Result, ok, assert_ok, Bool-cases, ltb→lt, leb→le, mod_by_ok, div_ok,
  mul_mono, arith,
}
use llumnix_kv.Env.{Env, max_tp_size}
use llumnix_kv.Types.{heads_of, ℤ}
use llumnix_kv.Shape.{count}
use llumnix_kv.Stub.Ranks.{
  assert_divides, set_every, ranks_p_lt_d, ranks_by_head, ranks_by_dst, compute_valid_ranks_pd,
  shift_left, kvt_tp_rank_of,
}
use llumnix_kv.Stub.Marks.{Marks, count-Marks, set_every_total}

take-replicate :
    (a b n : ℕ) (bits : List Bool)
    → n ≡ a + b
    → count (take n (replicate a false ++ bits)) ≡ count (take b bits)
take-replicate zero b n bits e = let e' : n ≡ b = omega arith in rw e' refl
take-replicate (suc a) b zero bits e = absurd (omega arith)
take-replicate (suc a) b (suc n) bits e = take-replicate a b n bits (omega arith)

take-length : (bits : List Bool) → take (length bits) bits ≡ bits
take-length [] = refl
take-length (b ∷ bits) = ap (◌∷◌ b) (take-length bits)

-- The shift count of `kvt_tp_rank`: it drops the bits from the rank on.
count-shift_left :
    (bits : List Bool) (r : ℕ)
    → length bits ≡ max_tp_size
    → r < max_tp_size
    → kvt_tp_rank_of bits r ≡ count (take r bits)
unfolding kvt_tp_rank_of shift_left
count-shift_left bits zero size h = rw size refl
count-shift_left bits (suc r) size h =
    rw (size, by, short)
      (take-replicate (max_tp_size - suc r) (suc r) max_tp_size bits (omega arith))
  where
    by : u64 (max_tp_size + 2 ^ 64 - suc r) ≡ max_tp_size - suc r
    by = omega arith

    short : leb max_tp_size (max_tp_size - suc r) ≡ false
    short = ground arith

-- The `j`-th sender has rank `j` among the senders, and there are `n` of them.
pub Marks-ranks :
    (n stride : ℕ) (bits : List Bool)
    → 0 < stride
    → 0 < n
    → n * stride ≤ max_tp_size
    → Marks n stride bits
    → (count bits ≡ n) × ((j : ℕ) → j < n → kvt_tp_rank_of bits (j * stride) ≡ j)
Marks-ranks n stride bits pos some fit m = (total, rank)
  where
    below : (j : ℕ) → j < n → (suc j * stride - 1) / stride ≡ j
    below j lt = div-eq_of_lt-le stride (omega arith) (omega arith)

    total : count bits ≡ n
    total =
        let most : n - 1 ≤ 15 / stride =
          (le-div_iff_mul-le pos).1
            (omega (arith, mul_mono (suc (n - 1)) n stride (omega arith))) in
        let whole : count (take 16 bits) ≡ count bits =
          subst (λ (k : ℕ). count (take k bits) ≡ count bits) m.size
            (ap count (take-length bits)) in
        let e : count (take 16 bits) ≡ min n (15 / stride + 1) =
          count-Marks n stride bits pos m 15 (omega arith) in
        omega (arith, most, whole, e)

    rank : (j : ℕ) → j < n → kvt_tp_rank_of bits (j * stride) ≡ j
    rank zero lt =
        ap (kvt_tp_rank_of bits) (omega arith) ∙ count-shift_left bits 0 m.size (omega arith)
    rank (suc j) lt =
        let room : suc j * stride < max_tp_size =
          omega (arith, mul_mono (suc (suc j)) n stride (omega arith)) in
        let e : suc j * stride ≡ suc (suc j * stride - 1) = omega arith in
        count-shift_left bits (suc j * stride) m.size room
        ∙ ap (λ (r : ℕ). count (take r bits)) e
        ∙ count-Marks n stride bits pos m (suc j * stride - 1) (omega arith)
        ∙ let q = below j (omega arith) in omega arith

-- How many ranks of P send to a destination with `d_tp` ranks.
abbrev pub senders : ℕ → ℕ → ℕ → ℕ
senders p_tp d_tp heads =
    if ltb p_tp d_tp || (heads == 0 || leb p_tp heads)
    then p_tp
    else (if leb d_tp heads then heads else d_tp)

-- What the `assert`s of `compute_valid_ranks_pd` ask of the sizes, where both are positive and each rank of
-- P has a bit.
pub record Divisible (p_tp d_tp heads : ℕ) : Type 0 where
  pub some_p : 0 < p_tp
  pub some_d : 0 < d_tp
  pub most : p_tp ≤ max_tp_size
  pub fan_out : p_tp < d_tp → d_tp % p_tp ≡ 0
  pub mixed_p : p_tp < heads → heads < d_tp → heads % p_tp ≡ 0
  pub mixed_d : p_tp < heads → heads < d_tp → d_tp % heads ≡ 0
  pub by_head : 0 < heads → heads < p_tp → d_tp ≤ heads → p_tp % heads ≡ 0
  pub few_heads : 0 < heads → heads < d_tp → d_tp ≤ p_tp → d_tp % heads ≡ 0
  pub by_dst : 0 < heads → heads < d_tp → d_tp ≤ p_tp → p_tp % d_tp ≡ 0

divides_ok : (b : Bool) (x y : ℕ) → 0 < y → x % y ≡ 0 → assert_divides b x y ≡ ok tt
unfolding assert_divides ◌>>=◌
divides_ok true x y h e = rw (mod_by_ok x y h, e) (assert_ok true _ refl)
divides_ok false x y h e = refl

-- A divisor that only an `assert` under a condition reads.
divides_if :
    (b c : Bool) (x y : ℕ)
    → (c ≡ true → (0 < y) × (x % y ≡ 0))
    → assert_divides (b && c) x y ≡ ok tt
unfolding assert_divides
divides_if true true x y h = divides_ok true x y (h refl).0 (h refl).1
divides_if true false x y h = refl
divides_if false c x y h = refl

-- A run that chooses `n` ranks, one from each `stride` of the `p_tp`: they are its multiples, the
-- effective size is `n`, and the `j`-th of them has effective rank `j`.
pub record Chosen (n p_tp : ℕ) (run : Result (List Bool)) : Type 0 where
  pub stride : ℕ
  pub bits : List Bool
  pub returns : run ≡ ok bits
  pub marks : Marks n stride bits
  pub whole : n * stride ≡ p_tp
  pub kvt_tp_size : count bits ≡ n
  pub kvt_tp_rank : (j : ℕ) → j < n → kvt_tp_rank_of bits (j * stride) ≡ j

every_total :
    (n stride p_tp : ℕ)
    → 0 < p_tp
    → n * stride ≡ p_tp
    → p_tp ≤ max_tp_size
    → Chosen n p_tp (set_every n stride)
every_total n stride p_tp some e most =
    let pos : 0 < stride = grind arith in
    let some_n : 0 < n = grind arith in
    let (bits, run, m) = set_every_total n stride pos (omega arith) in
    let (total, rank) = Marks-ranks n stride bits pos some_n (omega arith) m in
    record {
      stride = stride;
      bits = bits;
      returns = run;
      marks = m;
      whole = e;
      kvt_tp_size = total;
      kvt_tp_rank = rank;
    }

-- The quotient by a divisor.
quotient_total :
    (p_tp n : ℕ)
    → 0 < p_tp
    → p_tp ≤ max_tp_size
    → p_tp % n ≡ 0
    → Chosen n p_tp (set_every n (p_tp / n))
quotient_total p_tp n some most e =
    every_total n (p_tp / n) p_tp some (omega (arith, div-add-mod' p_tp n)) most

module _ (env : Env) (p_tp d_tp heads : ℕ) (v : Divisible p_tp d_tp heads) where
  fan_out_total : p_tp < d_tp → Chosen p_tp p_tp (ranks_p_lt_d env p_tp d_tp heads)
  unfolding ranks_p_lt_d ◌>>=◌
  fan_out_total lt =
      rw
        (
          divides_ok env.asserts d_tp p_tp v.some_p (v.fan_out lt),
          divides_if env.asserts (ltb p_tp heads && ltb heads d_tp) heads p_tp
              (λ c. (v.some_p, v.mixed_p (ground arith) (ground arith))),
          divides_if env.asserts (ltb p_tp heads && ltb heads d_tp) d_tp heads
              (λ c. (ground arith, v.mixed_d (ground arith) (ground arith))),
        )
        (every_total p_tp 1 p_tp v.some_p (omega arith) v.most)

  by_head_total :
      0 < heads → heads < p_tp → d_tp ≤ heads → Chosen heads p_tp (ranks_by_head env p_tp heads)
  unfolding ranks_by_head ◌>>=◌
  by_head_total some few le =
      rw (divides_ok env.asserts p_tp heads some (v.by_head some few le), div_ok p_tp heads some)
        (quotient_total p_tp heads v.some_p v.most (v.by_head some few le))

  by_dst_total :
      0 < heads → heads < d_tp → d_tp ≤ p_tp → Chosen d_tp p_tp (ranks_by_dst env p_tp d_tp heads)
  unfolding ranks_by_dst ◌>>=◌
  by_dst_total some few le =
      rw
        (
          divides_ok env.asserts d_tp heads some (v.few_heads some few le),
          divides_ok env.asserts p_tp d_tp v.some_d (v.by_dst some few le),
          div_ok p_tp d_tp v.some_d,
        )
        (quotient_total p_tp d_tp v.some_p v.most (v.by_dst some few le))

-- Where the sizes are positive, P has at most 16 ranks, and the sizes divide as the `assert`s ask
-- (`Divisible`), `compute_valid_ranks_pd` returns, and chooses `senders` of the ranks of P: the
-- multiples of a stride that divides `p_tp` into as many parts; their number is the effective size,
-- and the `j`-th of them has effective rank `j`.
pub valid_ranks_total :
    (env : Env) (p_tp d_tp : ℕ) (num_kv_heads : ℤ)
    → Divisible p_tp d_tp (heads_of num_kv_heads)
    → Chosen
        (senders p_tp d_tp (heads_of num_kv_heads))
        p_tp
        (compute_valid_ranks_pd env p_tp d_tp num_kv_heads)
unfolding compute_valid_ranks_pd
valid_ranks_total env p_tp d_tp num_kv_heads v = elim (Bool-cases (ltb p_tp d_tp)) [
  | inl lt ↦ rw lt (fan_out_total env p_tp d_tp heads v (ltb→lt p_tp d_tp lt))
  | inr ge ↦ elim (Bool-cases (heads == 0 || leb p_tp heads)) [
    | inl all ↦ rw (ge, all) (every_total p_tp 1 p_tp v.some_p (omega arith) v.most)
    | inr few ↦ elim (Bool-cases (leb d_tp heads)) [
      | inl le ↦
          rw (ge, few, le)
            (by_head_total env p_tp d_tp heads v (ground arith) (ground arith)
              (leb→le d_tp heads le))
      | inr gt ↦
          rw (ge, few, gt)
            (by_dst_total env p_tp d_tp heads v (ground arith) (ground arith) (ground arith))
    ]
  ]
]
  where
    heads : ℕ
    heads = heads_of num_kv_heads
