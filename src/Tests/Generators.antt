-- ===== src/Tests/Generators.antt =====
-- Runs of the shared block generators and of the range checks (kvtransfer/src/parse_block_common.cpp,
-- kvtransfer/src/channel.cpp).
use llumnix_kv.Base.{
  ◌≡◌, refl, ◌↔◌, false, List, [], ◌∷◌, ◌++◌, All, ok, ◌>>=◌, assert, at, index, div, mod_by, while,
  inl, arith,
}
use llumnix_kv.Types.{IpcBlock}
use llumnix_kv.Copies.{bytes, tokens, paged, token_blocks}
use llumnix_kv.Bounds.{
  IpcBlockOffset, offset_of, validate_ipc_block_bounds, append_ipc_block_checked, range_invalid,
}
use llumnix_kv.Bounds.Checked.{Fits, validate_iff}
use llumnix_kv.Parse.{
  do_parse_block_send_p_eq_d, p_eq_d_step, parse_block_send_gt, emit_zero_fill_segments,
}
use llumnix_kv.Parse.EqLoop.{Fitting}
use llumnix_kv.Parse.Eq.{p_eq_d_total}
use llumnix_kv.Parse.GtLoop.{Grouped, from, to}
use llumnix_kv.Parse.Gt.{gt_total}
use llumnix_kv.Parse.ZeroFill.{written, count_up, Fillable, ReadsZero, zero_fill_total}
use llumnix_kv.Tests.{plain_env, last_task, small_bounds, small_bounds-IsBounds}

task-Fitting : Fitting plain_env 8 2 4 (3 ∷ 1 ∷ []) (0 ∷ 2 ∷ []) small_bounds 6
task-Fitting = record {
  valid = small_bounds-IsBounds;
  unscaled = refl;
  some_token = omega arith;
  some_tokens = omega arith;
  whole = refl;
  small = omega arith;
  src_covers = omega arith;
  dst_covers = omega arith;
  src_fits = (omega arith, (omega arith, tt));
  dst_fits = (omega arith, (omega arith, tt));
}

p_eq_d_total_example :
    (new : List IpcBlock) × (do_parse_block_send_p_eq_d plain_env 8 2 last_task small_bounds []
      ≡ ok ([] ++ new))
    × (bytes new ≡ tokens (paged (3 ∷ 1 ∷ []) 4 8 2 0) (paged (0 ∷ 2 ∷ []) 4 8 2 0) 2 2 4)
unfolding index
p_eq_d_total_example =
    p_eq_d_total plain_env 8 2 4 small_bounds last_task [] (3 ∷ 1 ∷ []) (0 ∷ 2 ∷ []) refl refl
      (omega arith) (omega arith) task-Fitting

-- What it emits there: one block for each page.
p_eq_d_run :
    do_parse_block_send_p_eq_d plain_env 8 2 last_task small_bounds []
    ≡ ok (
        record { src_offset = 28; dst_offset = 4; length = 4 }
        ∷ record { src_offset = 8; dst_offset = 16; length = 4 }
        ∷ [])
unfolding do_parse_block_send_p_eq_d p_eq_d_step append_ipc_block_checked range_invalid while div
    mod_by assert at index ◌>>=◌
p_eq_d_run = refl

-- A group of two: P tokens of 2 bytes, all K, go to the second half of D tokens of 4.
task-Grouped : Grouped plain_env 2 2 4 4 1 (3 ∷ 1 ∷ []) (0 ∷ 2 ∷ []) small_bounds false 6
task-Grouped = record {
  valid = small_bounds-IsBounds;
  some_bytes = omega arith;
  some_tokens = omega arith;
  small = omega arith;
  small_page = omega arith;
  p_side = record {
    small = omega arith;
    covers = omega arith;
    fits = (omega arith, (omega arith, tt));
  };
  d_side = record {
    small = omega arith;
    covers = omega arith;
    fits = (omega arith, (omega arith, tt));
  };
}

gt_total_example :
    parse_block_send_gt plain_env 2 2 4 4 1 (3 ∷ 1 ∷ []) (0 ∷ 2 ∷ []) 2 4 small_bounds false []
    ≡ ok (
        []
        ++ token_blocks
            (from plain_env 2 2 4 4 1 (3 ∷ 1 ∷ []) (0 ∷ 2 ∷ []) small_bounds false)
            (to plain_env 2 2 4 4 1 (3 ∷ 1 ∷ []) (0 ∷ 2 ∷ []) small_bounds false)
            2
            2
            4)
gt_total_example =
    gt_total plain_env 2 2 4 4 1 (3 ∷ 1 ∷ []) (0 ∷ 2 ∷ []) 2 4 small_bounds false [] (omega arith)
      (inl refl) task-Grouped

zero_Fillable : Fillable 0 20 10 4 small_bounds []
zero_Fillable = record {
  valid = small_bounds-IsBounds;
  some_segment = omega arith;
  src_fits = omega arith;
  dst_fits = omega arith;
}

zero_fill_total_example :
    (new : List IpcBlock) × (emit_zero_fill_segments plain_env 0 20 10 4 small_bounds []
      ≡ ok ([] ++ new))
    × (written (bytes new) ≡ count_up 20 10)
    × All (ReadsZero 0 20 10 4 small_bounds []) new
zero_fill_total_example = zero_fill_total 0 20 10 4 small_bounds [] plain_env zero_Fillable

validate_iff_example :
    (validate_ipc_block_bounds
        (record { src_offset = 60; dst_offset = 0; length = 4 } ∷ [])
        64
        IpcBlockOffset.source
        1
      ≡ ok tt)
    ↔ All
        (λ b. Fits b.length 1 (offset_of IpcBlockOffset.source b) 64)
        (record { src_offset = 60; dst_offset = 0; length = 4 } ∷ [])
validate_iff_example =
    validate_iff (record { src_offset = 60; dst_offset = 0; length = 4 } ∷ []) 64
      IpcBlockOffset.source 1 (omega arith) (omega arith)
