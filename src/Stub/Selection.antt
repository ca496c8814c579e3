-- ===== src/Stub/Selection.antt =====
-- kvtransfer/src/tx_stub.cpp, `TaskContext::refresh_dst_info`: the cascade that picks the block generator.
use llumnix_kv.Base.{ℕ, ◌||◌, Option, none, some, ltb, ◌==◌, if◌then◌else◌}
use llumnix_kv.Env.{
  ragged_flash_cache_shape, flash_cache_shape, qwen3_next_flash_cache_shape,
  dpsk_v32_sparse_mla_shape, flashinfer_cache_shape, turboquant_cache_shape,
  qwen3_next_flashinfer_cache_shape, kimi_k3_mla_cache_shape,
}
use llumnix_kv.Types.{WorkerInfo, TpKind}
use llumnix_kv.Shape.{sizes_eq}

-- The functions that `parse_block` points to.
pub data ParseBlockFunc : Type 0 where
  parse_block_send_p_eq_d parse_block_send_p_gt_d_dpsk parse_block_send_p_gt_d
        parse_block_send_p_lt_d vllm_parse_block_send_p_eq_d vllm_parse_block_send_p_gt_d
        vllm_parse_hybrid_block_send_p_eq_d_block_aligned vllm_parse_hybrid_block_send_p_gt_d
        vllm_parse_hybrid_block_send_p_lt_d vllm_parse_block_send_multi_tensor_p_eq_d
        vllm_parse_block_send_multi_tensor_p_gt_d vllm_parse_block_send_multi_tensor_p_lt_d
        vllm_parse_flashinfer_block_send_p_eq_d vllm_parse_flashinfer_block_send_p_gt_d
        vllm_parse_qwen3_next_flashinfer_block_send_p_eq_d
        vllm_parse_qwen3_next_flashinfer_block_send_p_gt_d
        vllm_parse_qwen3_next_flashinfer_block_send_p_lt_d parse_kimi_k3_mla_block_send_p_eq_d
        parse_kimi_k3_mla_block_send_p_gt_d parse_kimi_k3_mla_block_send_p_lt_d
        turboquant_parse_block_send_p_eq_d turboquant_parse_block_send_p_gt_d :
      ParseBlockFunc

unfoldable pub selection_p_tp : ℕ → WorkerInfo → ℕ → ℕ
selection_p_tp cache_shape src effective_kvt_tp_size =
    if cache_shape == qwen3_next_flash_cache_shape
      || cache_shape == qwen3_next_flashinfer_cache_shape
      || cache_shape == kimi_k3_mla_cache_shape
    then src.engine_tp_size
    else effective_kvt_tp_size

-- A choice by the sizes of P and D; `none` falls through to the `throw` at the end.
abbrev pub by_size :
    ℕ
    → ℕ
    → Option (ParseBlockFunc × TpKind)
    → Option (ParseBlockFunc × TpKind)
    → Option (ParseBlockFunc × TpKind)
    → Option (ParseBlockFunc × TpKind)
by_size p d same more less = if p == d then same else (if ltb d p then more else less)

-- The cascade of `refresh_dst_info`.
unfoldable pub select : ℕ → WorkerInfo → WorkerInfo → ℕ → Option (ParseBlockFunc × TpKind)
select cache_shape src dst p =
    let d = dst.engine_tp_size in
    if cache_shape == ragged_flash_cache_shape
    then by_size p d (some (ParseBlockFunc.parse_block_send_p_eq_d, TpKind.peqd))
        (if sizes_eq src.token_sizes dst.token_sizes
          then some (ParseBlockFunc.parse_block_send_p_gt_d_dpsk, TpKind.peqd)
          else some (ParseBlockFunc.parse_block_send_p_gt_d, TpKind.pgtd))
        (some (ParseBlockFunc.parse_block_send_p_lt_d, TpKind.pltd))
    else (if cache_shape == flash_cache_shape
        then by_size p d (some (ParseBlockFunc.vllm_parse_block_send_p_eq_d, TpKind.peqd))
            (some (ParseBlockFunc.vllm_parse_block_send_p_gt_d, TpKind.pgtd)) none
        else (if cache_shape == qwen3_next_flash_cache_shape
            then by_size p d
                (some
                  (ParseBlockFunc.vllm_parse_hybrid_block_send_p_eq_d_block_aligned, TpKind.peqd))
                (some (ParseBlockFunc.vllm_parse_hybrid_block_send_p_gt_d, TpKind.pgtd))
                (some (ParseBlockFunc.vllm_parse_hybrid_block_send_p_lt_d, TpKind.pltd))
            else (if cache_shape == dpsk_v32_sparse_mla_shape
                then by_size p d
                    (some (ParseBlockFunc.vllm_parse_block_send_multi_tensor_p_eq_d, TpKind.peqd))
                    (some (ParseBlockFunc.vllm_parse_block_send_multi_tensor_p_gt_d, TpKind.peqd))
                    (some (ParseBlockFunc.vllm_parse_block_send_multi_tensor_p_lt_d, TpKind.peqd))
                else (if cache_shape == flashinfer_cache_shape
                    then by_size p d
                        (some (ParseBlockFunc.vllm_parse_flashinfer_block_send_p_eq_d, TpKind.peqd))
                        (some (ParseBlockFunc.vllm_parse_flashinfer_block_send_p_gt_d, TpKind.pgtd))
                        none
                    else (if cache_shape == qwen3_next_flashinfer_cache_shape
                        then by_size p d
                            (some (
                              ParseBlockFunc.vllm_parse_qwen3_next_flashinfer_block_send_p_eq_d,
                              TpKind.peqd,
                            ))
                            (some (
                              ParseBlockFunc.vllm_parse_qwen3_next_flashinfer_block_send_p_gt_d,
                              TpKind.pgtd,
                            ))
                            (some (
                              ParseBlockFunc.vllm_parse_qwen3_next_flashinfer_block_send_p_lt_d,
                              TpKind.pltd,
                            ))
                        else (if cache_shape == kimi_k3_mla_cache_shape
                            then by_size p d
                                (some
                                  (ParseBlockFunc.parse_kimi_k3_mla_block_send_p_eq_d, TpKind.peqd))
                                (some
                                  (ParseBlockFunc.parse_kimi_k3_mla_block_send_p_gt_d, TpKind.pgtd))
                                (some
                                  (ParseBlockFunc.parse_kimi_k3_mla_block_send_p_lt_d, TpKind.pltd))
                            else (if cache_shape == turboquant_cache_shape
                                then by_size p d
                                    (some (
                                      ParseBlockFunc.turboquant_parse_block_send_p_eq_d,
                                      TpKind.peqd,
                                    ))
                                    (some (
                                      ParseBlockFunc.turboquant_parse_block_send_p_gt_d,
                                      TpKind.pgtd,
                                    ))
                                    none
                                else none)))))))
