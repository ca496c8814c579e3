-- ===== src/Tests/Hybrid.antt =====
-- Runs of the copy of whole blocks (kvtransfer/src/parse_block_qwen3_next.cpp).
use llumnix_kv.Base.{ℕ, ◌≡◌, refl, false, List, [], ◌∷◌, ok, ◌>>=◌, arith}
use llumnix_kv.Types.{ReqSendTask}
use llumnix_kv.Shape.Hybrid.Aligned.{do_parse_block_aligned_send}
use llumnix_kv.Shape.Hybrid.WholeBlocks.{Whole}
use llumnix_kv.Shape.Hybrid.Pages.{page}
use llumnix_kv.Shape.Hybrid.Chunks.{end_of, aligned_send_total, Chunked, aligned_send-chunks}
use llumnix_kv.Tests.{plain_env, last_task, small_bounds, small_bounds-IsBounds}

abbrev src_ids : List ℕ
src_ids = 3 ∷ 1 ∷ 5 ∷ []

abbrev dst_ids : List ℕ
dst_ids = 0 ∷ 2 ∷ 4 ∷ []

-- The first two tokens, then all six, and the end of the request.
abbrev first_task : ReqSendTask
first_task = record last_task { seen_tokens = 0; new_tokens = 2; reach_last_token = false }

abbrev whole_task : ReqSendTask
whole_task = record last_task { seen_tokens = 0; new_tokens = 6 }

abbrev end_task : ReqSendTask
end_task = record last_task { seen_tokens = 6; new_tokens = 0 }

Whole-blocks :
    (task : ReqSendTask)
    → end_of task ≡ 6
    → Whole plain_env 8 task src_ids dst_ids 4 small_bounds (end_of task)
Whole-blocks task e = record {
  valid = small_bounds-IsBounds;
  unscaled = refl;
  some_bytes = omega arith;
  some_tokens = omega arith;
  small = omega (arith, e);
  covers = omega (arith, e);
  same_number = refl;
  src_fits = (omega arith, (omega arith, (omega arith, tt)));
  dst_fits = (omega arith, (omega arith, (omega arith, tt)));
}

aligned_send_total_example :
    do_parse_block_aligned_send plain_env 8 last_task src_ids dst_ids 4 small_bounds []
    ≡ ok (page 8 src_ids dst_ids 0 ∷ page 8 src_ids dst_ids 1 ∷ page 8 src_ids dst_ids 2 ∷ [])
aligned_send_total_example =
    aligned_send_total plain_env 8 last_task src_ids dst_ids 4 small_bounds
      (Whole-blocks last_task refl) [] (omega arith)

in_two : Chunked first_task last_task whole_task
in_two = record {
  begins = refl;
  follows = refl;
  adds = refl;
  not_last = refl;
  same_last = refl;
  some_first = omega arith;
  some_second = omega arith;
}

aligned_send-chunks_example :
    (do_parse_block_aligned_send plain_env 8 first_task src_ids dst_ids 4 small_bounds []
      >>= λ sent.
          do_parse_block_aligned_send plain_env 8 last_task src_ids dst_ids 4 small_bounds sent)
    ≡ do_parse_block_aligned_send plain_env 8 whole_task src_ids dst_ids 4 small_bounds []
aligned_send-chunks_example =
    aligned_send-chunks plain_env 8 src_ids dst_ids 4 small_bounds first_task last_task whole_task
      (Whole-blocks whole_task refl) in_two []
