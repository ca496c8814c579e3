-- ===== src/Parse/ZeroFill.antt =====
-- `emit_zero_fill_segments` (kvtransfer/src/parse_block_common.cpp) writes each byte of the run once,
-- and reads only from the zero block.
use llumnix_kv.Base.{
  ◌>>=◌, mul_mono, [], ◌∷◌, ℕ, zero, suc, ◌+◌, ◌-◌, ◌*◌, ◌<◌, ◌≤◌, ◌≡◌, refl, sym, ap, ◌∙◌, true,
  List, ◌++◌, map, min, push_back, u64, u64_lem, ltb, ltb→lt, lt→ltb, ok, assert_ok, while_total,
  arith, append_assoc, append-nil, All, All-append,
}
use mathlib.Core.List.{map-append}
use llumnix_kv.Env.{Env}
use llumnix_kv.Types.{IpcBlock}
use llumnix_kv.Copies.{span, bytes, bytes-push_back}
use llumnix_kv.Bounds.{IpcBlockBounds}
use llumnix_kv.Bounds.Checked.{IsBounds, InBounds, append_at}
use llumnix_kv.Parse.{Filling, zero_fill_step, emit_zero_fill_segments}

-- The bytes written, and the bytes read.
abbrev pub written : List (ℕ × ℕ) → List ℕ
written = map (λ c. c.1)

-- The numbers from `d` on, `n` of them.
pub count_up : ℕ → ℕ → List ℕ
count_up d zero = []
count_up d (suc n) = d ∷ count_up (d + 1) n

count_up_eq : {d d' n n' : ℕ} → d ≡ d' → n ≡ n' → count_up d n ≡ count_up d' n'
count_up_eq p q = λ i. count_up (p i) (q i)

count_up-append : (d a b : ℕ) → count_up d (a + b) ≡ count_up d a ++ count_up (d + a) b
unfolding count_up
count_up-append d zero b = count_up_eq (omega arith) (omega arith)
count_up-append d (suc a) b =
    count_up_eq {d = d} {n' = suc (a + b)} refl (omega arith)
    ∙ ap (◌∷◌ d) (
        count_up-append (d + 1) a b
        ∙ ap (◌++◌ (count_up (d + 1) a)) (count_up_eq {d' = d + suc a} (omega arith) refl))

written-span : (s d n : ℕ) → written (span s d n) ≡ count_up d n
unfolding span count_up
written-span s d zero = refl
written-span s d (suc n) = ap (◌∷◌ d) (written-span (s + 1) (d + 1) n)

count_up_none : (d : ℕ) {n : ℕ} → n ≡ 0 → count_up d n ≡ []
unfolding count_up
count_up_none d e = rw e

module _ (zero_src_off dst_off length max_seg : ℕ) (bounds : IpcBlockBounds)
    (blocks : List IpcBlock) where
  -- The zero block and the run to fill lie within their layers.
  pub record Fillable : Type 0 where
    pub valid : IsBounds bounds
    pub some_segment : 0 < max_seg
    pub src_fits : zero_src_off + max_seg * bounds.src_length_scale ≤ bounds.src_capacity
    pub dst_fits : dst_off + length ≤ bounds.dst_capacity

  -- A block that reads within the zero block only.
  pub record ReadsZero (b : IpcBlock) : Type 0 where
    pub start : b.src_offset ≡ zero_src_off
    pub within : b.length ≤ max_seg

  record Filled (f : Filling) : Type 0 where
    new : List IpcBlock
    appended : f.blocks ≡ blocks ++ new
    bounded : f.filled ≤ length
    writes :
        written (bytes new) ++ count_up (dst_off + f.filled) (length - f.filled)
        ≡ count_up dst_off length
    reads : All ReadsZero new

  module _ (f : Filling) (v : Fillable) (p : Filled f) (more : f.filled < length) where
    abbrev seg : ℕ
    seg = min max_seg (length - f.filled)

    abbrev segment : IpcBlock
    segment = record { src_offset = zero_src_off; dst_offset = dst_off + f.filled; length = seg }

    segment-InBounds : InBounds bounds segment
    segment-InBounds = record {
      src = record {
        nonempty = omega (arith, v.some_segment);
        within =
            omega (arith, mul_mono seg max_seg bounds.src_length_scale (omega arith), v.src_fits);
      };
      dst = record { nonempty = omega (arith, v.some_segment); within = omega (arith, v.dst_fits) };
    }

    fill_step :
        zero_fill_step zero_src_off dst_off length max_seg bounds f
        ≡ ok (record { filled = f.filled + seg; blocks = push_back f.blocks segment })
    unfolding zero_fill_step ◌>>=◌
    fill_step =
        rw
          (
            append_at f.blocks bounds segment {s = zero_src_off} {d = u64 (dst_off + f.filled)}
                {l = seg} v.valid segment-InBounds refl
                (omega (arith, v.dst_fits, v.valid.dst_small)) refl,
            u64_lem {n = f.filled + seg} (omega (arith, v.dst_fits, v.valid.dst_small)),
          )
          refl

    rest :
        count_up (dst_off + f.filled) seg
          ++ count_up (dst_off + (f.filled + seg)) (length - (f.filled + seg))
        ≡ count_up (dst_off + f.filled) (length - f.filled)
    rest =
        ap (◌++◌ (count_up (dst_off + f.filled) seg)) (
          count_up_eq {d' = dst_off + f.filled + seg} {n' = length - f.filled - seg} (omega arith)
            (omega arith))
        ∙ sym (count_up-append (dst_off + f.filled) seg (length - f.filled - seg))
        ∙ count_up_eq {d = dst_off + f.filled} refl (omega arith)

    filled_step : Filled (record { filled = f.filled + seg; blocks = push_back f.blocks segment })
    filled_step = record {
      new = push_back p.new segment;
      appended = rw (p.appended, append_assoc) refl;
      bounded = omega arith;
      writes =
          rw
            (
              bytes-push_back p.new segment,
              map-append (λ (c : ℕ × ℕ). c.1) (bytes p.new),
              written-span zero_src_off (dst_off + f.filled) seg,
              append_assoc,
            )
            (ap (◌++◌ (written (bytes p.new))) rest ∙ p.writes);
      reads =
          All-append ReadsZero p.new (segment ∷ []) p.reads
            (record { start = refl; within = omega arith }, tt);
    }

  -- Where the zero block and the run to fill lie within their layers (`Fillable`),
  -- `emit_zero_fill_segments` returns, keeps the blocks that were there and appends blocks that
  -- write each byte of the run once, in order, and read within the zero block only.
  pub zero_fill_total :
      (env : Env)
      → Fillable
      → (new : List IpcBlock) × (emit_zero_fill_segments env zero_src_off dst_off length max_seg
            bounds blocks
          ≡ ok (blocks ++ new))
        × (written (bytes new) ≡ count_up dst_off length)
        × All ReadsZero new
  unfolding emit_zero_fill_segments ◌>>=◌ bytes
  zero_fill_total env v =
      let (t, e, p, stop) =
        while_total Filled (λ f. length - f.filled) (λ f. ltb f.filled length)
          (zero_fill_step zero_src_off dst_off length max_seg bounds) round (suc length)
          (record { filled = 0; blocks = blocks }) (omega arith) start in
      let finished : count_up (dst_off + t.filled) (length - t.filled) ≡ [] =
        count_up_none (dst_off + t.filled) (ground (arith, stop)) in
      (
        p.new,
        rw (assert_ok env.asserts _ (lt→ltb _ _ v.some_segment), e, p.appended) refl,
        sym (append-nil (written (bytes p.new))) ∙ rw finished at p.writes,
        p.reads,
      )
    where
      start : Filled (record { filled = 0; blocks = blocks })
      start = record {
        new = [];
        appended = sym (append-nil blocks);
        bounded = omega arith;
        writes = count_up_eq {d = dst_off + 0} {n = length - 0} (omega arith) (omega arith);
        reads = tt;
      }

      round :
          (f : Filling)
          → Filled f
          → ltb f.filled length ≡ true
          → (f' : Filling) × (zero_fill_step zero_src_off dst_off length max_seg bounds f ≡ ok f')
            × Filled f'
            × (length - f'.filled < length - f.filled)
      round f p b =
          let more = ltb→lt _ _ b in
          (_, fill_step f v p more, filled_step f v p more, omega (arith, v.some_segment))
