-- ===== src/Shape/Paired.antt =====
-- The conditions under which kvtransfer/src/parse_block_ragged.cpp and parse_block_dpsk.cpp send a
-- token's K and V, `k` bytes each on the side with more ranks: that both lie within the layers.
use llumnix_kv.Base.{
  ℕ, suc, ◌+◌, ◌-◌, ◌*◌, ◌%◌, ◌^◌, ◌<◌, ◌≤◌, ◌≡◌, refl, ap, subst, ◌∙◌, Bool, true, false, List, [],
  ◌∷◌, length, if◌then◌else◌, mul_mono, page_room, All, arith,
}
use llumnix_kv.Env.{Env}
use llumnix_kv.Copies.{paged, token_block}
use llumnix_kv.Bounds.{IpcBlockBounds}
use llumnix_kv.Bounds.Checked.{IsBounds, InBounds, Fits}
use llumnix_kv.Parse.Side.{Side, side-Fits}
use llumnix_kv.Parse.GtLoop.{Grouped, from, to}
use llumnix_kv.Shape.Stream.{shift}

pub All-weaken {ℓ κ μ} :
    {A : Type ℓ} (P : A → Type κ) (Q : A → Type μ)
    → ((a : A) → P a → Q a)
    → (xs : List A) → All P xs
    → All Q xs
All-weaken P Q f [] h = tt
All-weaken P Q f (x ∷ xs) h = (f x h.0, All-weaken P Q f xs h.1)

-- The part of each token that starts at `inner`, where whole blocks fit.
pub part-Side :
    (tok ntpb inner width scale capacity end : ℕ) (blocks : List ℕ)
    → capacity < 2 ^ 64
    → scale ≡ 1
    → 0 < ntpb
    → inner + width ≤ tok
    → end ≤ ntpb * length blocks
    → All (λ id. id * (tok * ntpb) + tok * ntpb ≤ capacity) blocks
    → Side (tok * ntpb) tok ntpb inner width scale capacity end blocks
part-Side tok ntpb inner width scale capacity end blocks small unscaled pos part covers fits =
    record {
      small = small;
      covers = covers;
      fits =
          All-weaken (λ (id : ℕ). id * (tok * ntpb) + tok * ntpb ≤ capacity)
            (λ (id : ℕ). id * (tok * ntpb) + (ntpb - 1) * tok + inner + width * scale ≤ capacity)
            (λ id h. room id h) blocks fits;
    }
  where
    last : (ntpb - 1) * tok + tok ≡ tok * ntpb
    last = let e : ntpb ≡ suc (ntpb - 1) = omega arith in omega (arith, ap (λ (n : ℕ). n * tok) e)

    room :
        (id : ℕ)
        → id * (tok * ntpb) + tok * ntpb ≤ capacity
        → id * (tok * ntpb) + (ntpb - 1) * tok + inner + width * scale ≤ capacity
    room id h = rw unscaled (omega (arith, last))

module _ (k group_n ntpb group_off : ℕ) (p_blocks d_blocks : List ℕ) (bounds : IpcBlockBounds)
    (swap : Bool) where
  pub record Paired (end : ℕ) : Type 0 where
    pub valid : IsBounds bounds
    pub unscaled : bounds.src_length_scale ≡ 1
    pub some_bytes : 0 < k
    pub some_tokens : 0 < ntpb
    pub small : end < 2 ^ 32
    pub small_page : ntpb < 2 ^ 32
    pub in_group : group_off < group_n
    pub p_covers : end ≤ ntpb * length p_blocks
    pub d_covers : end ≤ ntpb * length d_blocks
    pub p_fits :
        All
          (λ id.
            id * (k * 2 * ntpb) + k * 2 * ntpb
            ≤ (if swap then bounds.dst_capacity else bounds.src_capacity))
          p_blocks
    pub d_fits :
        All
          (λ id.
            id * (k * 2 * group_n * ntpb) + k * 2 * group_n * ntpb
            ≤ (if swap then bounds.src_capacity else bounds.dst_capacity))
          d_blocks

  module _ (end : ℕ) (v : Paired end) where
    either_small : (b : Bool) → (if b then bounds.dst_capacity else bounds.src_capacity) < 2 ^ 64
    either_small true = v.valid.dst_small
    either_small false = v.valid.src_small

    other_small : (b : Bool) → (if b then bounds.src_capacity else bounds.dst_capacity) < 2 ^ 64
    other_small true = v.valid.src_small
    other_small false = v.valid.dst_small

    either_scale : (b : Bool) → (if b then 1 else bounds.src_length_scale) ≡ 1
    either_scale true = refl
    either_scale false = v.unscaled

    other_scale : (b : Bool) → (if b then bounds.src_length_scale else 1) ≡ 1
    other_scale true = v.unscaled
    other_scale false = refl

    share : group_off * k + k ≤ k * group_n
    share = omega (arith, mul_mono (suc group_off) group_n k v.in_group)

    p_part :
        (inner : ℕ)
        → inner + k ≤ k * 2
        → Side
            (k * 2 * ntpb)
            (k * 2)
            ntpb
            inner
            k
            (if swap then 1 else bounds.src_length_scale)
            (if swap then bounds.dst_capacity else bounds.src_capacity)
            end
            p_blocks
    p_part inner h =
        part-Side (k * 2) ntpb inner k _ _ end p_blocks (either_small swap) (either_scale swap)
          v.some_tokens h v.p_covers v.p_fits

    d_part :
        (inner : ℕ)
        → inner + k ≤ k * 2 * group_n
        → Side
            (k * 2 * group_n * ntpb)
            (k * 2 * group_n)
            ntpb
            inner
            k
            (if swap then bounds.src_length_scale else 1)
            (if swap then bounds.src_capacity else bounds.dst_capacity)
            end
            d_blocks
    d_part inner h =
        part-Side (k * 2 * group_n) ntpb inner k _ _ end d_blocks (other_small swap)
          (other_scale swap) v.some_tokens h v.d_covers v.d_fits

    -- The K parts are what `parse_block_send_gt` asks for.
    pub Paired-Grouped :
        (env : Env)
        → Grouped env (k * 2) k (k * 2 * group_n) ntpb group_off p_blocks d_blocks bounds swap end
    Paired-Grouped env = record {
      valid = v.valid;
      some_bytes = v.some_bytes;
      some_tokens = v.some_tokens;
      small = v.small;
      small_page = v.small_page;
      p_side = p_part 0 (omega arith);
      d_side = d_part (group_off * k) (omega (arith, share));
    }

    -- The place of V at either end of the block.
    v_ends :
        (b : Bool) (x y x' y' : ℕ)
        → Fits k
            (if b then 1 else bounds.src_length_scale)
            x'
            (if b then bounds.dst_capacity else bounds.src_capacity)
        → Fits k
            (if b then bounds.src_length_scale else 1)
            y'
            (if b then bounds.src_capacity else bounds.dst_capacity)
        → x' ≡ x + k
        → y' ≡ y + k * group_n
        → InBounds bounds (
            shift (if b then k * group_n else k) (if b then k else k * group_n) k (record {
              src_offset = if b then y else x;
              dst_offset = if b then x else y;
              length = k;
            }))
    v_ends true x y x' y' p d ex ey = record {
      src = record { nonempty = d.nonempty; within = omega (arith, d.within) };
      dst = record { nonempty = p.nonempty; within = omega (arith, p.within) };
    }
    v_ends false x y x' y' p d ex ey = record {
      src = record {
        nonempty = p.nonempty;
        within =
            subst (λ (o : ℕ). o + k * bounds.src_length_scale ≤ bounds.src_capacity) ex p.within;
      };
      dst = record { nonempty = d.nonempty; within = omega (arith, d.within) };
    }

    -- The V block of token `t`.
    pub v_InBounds :
        (env : Env) (t : ℕ)
        → t < end
        → InBounds bounds (
            shift (if swap then k * group_n else k) (if swap then k else k * group_n) k (
              token_block
                (from env (k * 2) k (k * 2 * group_n) ntpb group_off p_blocks d_blocks bounds swap)
                (to env (k * 2) k (k * 2 * group_n) ntpb group_off p_blocks d_blocks bounds swap)
                k
                t))
    v_InBounds env t lt =
        v_ends swap (paged p_blocks ntpb (k * 2 * ntpb) (k * 2) 0 t)
          (paged d_blocks ntpb (k * 2 * group_n * ntpb) (k * 2 * group_n) (group_off * k) t) _ _
          (side-Fits p_blocks (p_part k (omega arith)) v.some_tokens t 0 lt room v.some_bytes)
          (side-Fits d_blocks (d_part (group_off * k + k * group_n) (omega (arith, share)))
            v.some_tokens t 0 lt room v.some_bytes)
          (here p_blocks (k * 2 * ntpb) (k * 2) k ∙ omega arith)
          (here d_blocks (k * 2 * group_n * ntpb) (k * 2 * group_n) (group_off * k + k * group_n)
            ∙ omega arith)
      where
        here :
            (blocks : List ℕ) (bs ts inner : ℕ)
            → paged blocks ntpb bs ts inner (t + 0) ≡ paged blocks ntpb bs ts inner t
        here blocks bs ts inner = ap (paged blocks ntpb bs ts inner) (omega arith)

        room : t % ntpb + 0 < ntpb
        room = omega (arith, page_room t ntpb v.some_tokens)
