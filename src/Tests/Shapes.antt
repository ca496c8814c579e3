-- ===== src/Tests/Shapes.antt =====
-- Runs of the generators of the cache shapes (kvtransfer/src/parse_block_ragged.cpp).
use llumnix_kv.Base.{
  ◌*◌, ◌≡◌, refl, true, false, List, [], ◌∷◌, ◌++◌, map, All, get_or, ok, index, ◌>>=◌, arith,
}
use llumnix_kv.Types.{IpcBlock, WorkerInfo}
use llumnix_kv.Copies.{bytes, tokens, paged}
use llumnix_kv.Parse.EqLoop.{Fitting}
use llumnix_kv.Shape.FlashEq.{Alike, flash_eq_total}
use llumnix_kv.Bounds.{IpcBlockBounds, make_ipc_block_bounds, checked_layer_capacity}
use llumnix_kv.Bounds.Checked.{InBounds}
use llumnix_kv.Shape.Ragged.{parse_block_send_p_gt_d, parse_block_send_p_lt_d}
use llumnix_kv.Shape.Stream.{shift}
use llumnix_kv.Shape.Paired.{Paired}
use llumnix_kv.Shape.Split.{p_gt_d_total, p_lt_d_total}
use llumnix_kv.Shape.SplitBlocks.{Grouping, k_blocks}
use llumnix_kv.Shape.Flash.{vllm_parse_block_send_p_eq_d, vllm_parse_block_send_p_gt_d}
use llumnix_kv.Shape.FlashSplit.{Flashed, flash_k_blocks, flash_gt_total}
use llumnix_kv.Shape.FlashHalves.{Halved, to_v}
use llumnix_kv.Shape.{SendBlocks}
use llumnix_kv.Stub.Selection.{ParseBlockFunc}
use llumnix_kv.Stub.Pointers.{call_parse_block, call_parse_block-in_bounds}
use llumnix_kv.Tests.{plain_env, last_task, worker}

-- The second of two ranks with tokens of 2 bytes, and the one rank with tokens of 4.
abbrev two : WorkerInfo
two = worker 2 1 2 8

abbrev one : WorkerInfo
one = worker 1 0 4 16

two-one-Grouping : Grouping two one 2 1 1 2 4
two-one-Grouping = record {
  p_token = refl;
  d_token = refl;
  p_block = refl;
  d_block = refl;
  ranks = refl;
  some_rank = omega arith;
  several = omega arith;
  same_group = refl;
  words = omega arith;
}

abbrev gt_bounds : IpcBlockBounds
gt_bounds = record { src_capacity = 64; dst_capacity = 128; src_length_scale = 1; cache_idx = 0 }

abbrev lt_bounds : IpcBlockBounds
lt_bounds = record { src_capacity = 128; dst_capacity = 64; src_length_scale = 1; cache_idx = 0 }

gt_Paired : Paired 1 2 4 1 (3 ∷ 1 ∷ []) (0 ∷ 2 ∷ []) gt_bounds false 6
gt_Paired = record {
  valid = record { scale = omega arith; src_small = omega arith; dst_small = omega arith };
  unscaled = refl;
  some_bytes = omega arith;
  some_tokens = omega arith;
  small = omega arith;
  small_page = omega arith;
  in_group = omega arith;
  p_covers = omega arith;
  d_covers = omega arith;
  p_fits = (omega arith, (omega arith, tt));
  d_fits = (omega arith, (omega arith, tt));
}

lt_Paired : Paired 1 2 4 1 (0 ∷ 2 ∷ []) (3 ∷ 1 ∷ []) lt_bounds true 6
lt_Paired = record {
  valid = record { scale = omega arith; src_small = omega arith; dst_small = omega arith };
  unscaled = refl;
  some_bytes = omega arith;
  some_tokens = omega arith;
  small = omega arith;
  small_page = omega arith;
  in_group = omega arith;
  p_covers = omega arith;
  d_covers = omega arith;
  p_fits = (omega arith, (omega arith, tt));
  d_fits = (omega arith, (omega arith, tt));
}

gt_made : make_ipc_block_bounds plain_env two one 0 ≡ ok gt_bounds
unfolding make_ipc_block_bounds checked_layer_capacity index ◌>>=◌
gt_made = refl

lt_made : make_ipc_block_bounds plain_env one two 0 ≡ ok lt_bounds
unfolding make_ipc_block_bounds checked_layer_capacity index ◌>>=◌
lt_made = refl

p_gt_d_total_example :
    parse_block_send_p_gt_d plain_env two one [] 2 1 last_task []
    ≡ ok (
        ([]
          ++ (k_blocks plain_env 1 2 4 1 (3 ∷ 1 ∷ []) (0 ∷ 2 ∷ []) 2 4 gt_bounds false
              ++ map
                  (shift 1 (1 * 2) 1)
                  (k_blocks plain_env 1 2 4 1 (3 ∷ 1 ∷ []) (0 ∷ 2 ∷ []) 2 4 gt_bounds false)))
        ∷ [])
unfolding index
p_gt_d_total_example =
    p_gt_d_total plain_env [] 2 1 last_task (3 ∷ 1 ∷ []) (0 ∷ 2 ∷ []) gt_bounds [] []
      two-one-Grouping refl refl gt_made gt_Paired refl refl

p_lt_d_total_example :
    parse_block_send_p_lt_d plain_env one two [] 1 0 last_task []
    ≡ ok (
        ([]
          ++ (k_blocks plain_env 1 2 4 1 (0 ∷ 2 ∷ []) (3 ∷ 1 ∷ []) 2 4 lt_bounds true
              ++ map
                  (shift (1 * 2) 1 1)
                  (k_blocks plain_env 1 2 4 1 (0 ∷ 2 ∷ []) (3 ∷ 1 ∷ []) 2 4 lt_bounds true)))
        ∷ [])
unfolding index
p_lt_d_total_example =
    p_lt_d_total plain_env [] 1 0 last_task (3 ∷ 1 ∷ []) (0 ∷ 2 ∷ []) lt_bounds [] []
      two-one-Grouping refl refl lt_made lt_Paired refl refl

-- What the second of the two ranks sends.
abbrev sent : SendBlocks
sent =
    ([]
      ++ (k_blocks plain_env 1 2 4 1 (3 ∷ 1 ∷ []) (0 ∷ 2 ∷ []) 2 4 gt_bounds false
          ++ map (shift 1 (1 * 2) 1)
              (k_blocks plain_env 1 2 4 1 (3 ∷ 1 ∷ []) (0 ∷ 2 ∷ []) 2 4 gt_bounds false)))
    ∷ []

pointer_run :
    call_parse_block plain_env ParseBlockFunc.parse_block_send_p_gt_d two one [] 2 1 last_task []
    ≡ ok sent
unfolding call_parse_block index
pointer_run =
    p_gt_d_total plain_env [] 2 1 last_task (3 ∷ 1 ∷ []) (0 ∷ 2 ∷ []) gt_bounds [] []
      two-one-Grouping refl refl gt_made gt_Paired refl refl

call_parse_block-in_bounds_example : All (InBounds gt_bounds) (get_or sent 0 [])
call_parse_block-in_bounds_example =
    call_parse_block-in_bounds plain_env two one 0 gt_bounds gt_made [] 2 1 last_task []
      ParseBlockFunc.parse_block_send_p_gt_d sent tt pointer_run

-- The flash shape, between the same workers.
two-one-Flashed : Flashed two one (true ∷ true ∷ []) 2 1 1 2 4
unfolding index
two-one-Flashed = record {
  p_token = refl;
  d_token = refl;
  p_block = refl;
  d_block = refl;
  selected = refl;
  senders = refl;
  some_rank = omega arith;
  more = omega arith;
  same_group = refl;
  words = omega arith;
}

gt_Halved : Halved 1 2 4 1 (3 ∷ 1 ∷ []) (0 ∷ 2 ∷ []) gt_bounds 32 64 6
gt_Halved = record {
  valid = record { scale = omega arith; src_small = omega arith; dst_small = omega arith };
  unscaled = refl;
  some_bytes = omega arith;
  some_tokens = omega arith;
  small = omega arith;
  small_page = omega arith;
  in_group = omega arith;
  p_covers = omega arith;
  d_covers = omega arith;
  p_fits = (omega arith, (omega arith, tt));
  d_fits = (omega arith, (omega arith, tt));
  p_room = omega arith;
  d_room = omega arith;
}

flash_gt_total_example :
    vllm_parse_block_send_p_gt_d plain_env two one (true ∷ true ∷ []) 2 1 last_task []
    ≡ ok (
        ([]
          ++ (flash_k_blocks plain_env last_task (3 ∷ 1 ∷ []) (0 ∷ 2 ∷ []) gt_bounds 1 2 4 1 1
              ++ map (to_v 32 64) (
                  flash_k_blocks plain_env last_task
                    (3 ∷ 1 ∷ [])
                    (0 ∷ 2 ∷ [])
                    gt_bounds
                    1
                    2
                    4
                    1
                    1)))
        ∷ [])
unfolding index
flash_gt_total_example =
    flash_gt_total plain_env last_task (3 ∷ 1 ∷ []) (0 ∷ 2 ∷ []) gt_bounds [] [] two-one-Flashed
      refl refl gt_made gt_Halved refl refl

-- The flash shape, between two workers of the same rank and sizes.
abbrev eq_bounds : IpcBlockBounds
eq_bounds = record { src_capacity = 64; dst_capacity = 64; src_length_scale = 1; cache_idx = 0 }

eq_made : make_ipc_block_bounds plain_env two two 0 ≡ ok eq_bounds
unfolding make_ipc_block_bounds checked_layer_capacity index ◌>>=◌
eq_made = refl

two-two-Alike : Alike two two 1 4 eq_bounds
two-two-Alike = record {
  p_token = refl;
  d_token = refl;
  p_block = refl;
  d_block = refl;
  same_rank = refl;
  small_page = omega arith;
  words = omega arith;
  p_room = omega arith;
  d_room = omega arith;
}

eq-Fitting : Fitting plain_env 4 1 4 (3 ∷ 1 ∷ []) (0 ∷ 2 ∷ []) eq_bounds 6
eq-Fitting = record {
  valid = record { scale = omega arith; src_small = omega arith; dst_small = omega arith };
  unscaled = refl;
  some_token = omega arith;
  some_tokens = omega arith;
  whole = refl;
  small = omega arith;
  src_covers = omega arith;
  dst_covers = omega arith;
  src_fits = (omega arith, (omega arith, tt));
  dst_fits = (omega arith, (omega arith, tt));
}

flash_eq_total_example :
    (new : List IpcBlock) × (vllm_parse_block_send_p_eq_d plain_env two two [] 2 1 last_task []
      ≡ ok (([] ++ new) ∷ []))
    × (bytes new
        ≡ tokens (paged (3 ∷ 1 ∷ []) 4 4 1 0) (paged (0 ∷ 2 ∷ []) 4 4 1 0) 1 2 4
          ++ tokens (paged (3 ∷ 1 ∷ []) 4 4 1 32) (paged (0 ∷ 2 ∷ []) 4 4 1 32) 1 2 4)
unfolding index
flash_eq_total_example =
    flash_eq_total plain_env two two [] 1 1 4 last_task (3 ∷ 1 ∷ []) (0 ∷ 2 ∷ []) eq_bounds [] []
      two-two-Alike refl refl eq_made eq-Fitting
      (record {
        unit = refl;
        src_in = (omega arith, (omega arith, tt));
        dst_in = (omega arith, (omega arith, tt));
      })
      refl
