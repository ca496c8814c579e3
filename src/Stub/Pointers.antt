-- ===== src/Stub/Pointers.antt =====
-- kvtransfer/src/tx_stub.cpp: the call through the pointer `parse_block`.
use llumnix_kv.Base.{ℕ, ◌≡◌, Bool, List, [], get_or, Result, ok, All, Ensures}
use llumnix_kv.Env.{Env}
use llumnix_kv.Types.{WorkerInfo, ReqSendTask}
use llumnix_kv.Bounds.{IpcBlockBounds, make_ipc_block_bounds}
use llumnix_kv.Bounds.Checked.{InBounds}
use llumnix_kv.Shape.{SendBlocks}
use llumnix_kv.Shape.Ragged as Ragged
use llumnix_kv.Shape.Flash as Flash
use llumnix_kv.Shape.Dpsk as Dpsk
use llumnix_kv.Shape.KimiK3 as KimiK3
use llumnix_kv.Shape.Hybrid.Send as Send
use llumnix_kv.Shape.Hybrid.FlashInfer as FlashInfer
use llumnix_kv.Shape.Hybrid.FlashInferSend as FlashInferSend
use llumnix_kv.Shape.Hybrid.FlashInferLt as FlashInferLt
use llumnix_kv.Shape.Safety.{Safe}
use llumnix_kv.Shape.InLayers.{
  ragged_eq-Safe, ragged_gt_dpsk-Safe, ragged_gt-Safe, ragged_lt-Safe, flash_eq-Safe, flash_gt-Safe,
  dpsk_eq-Safe, dpsk_gt-Safe, dpsk_lt-Safe,
}
use llumnix_kv.Shape.KdaInLayers.{kimi_eq-Safe, kimi_gt-Safe, kimi_lt-Safe}
use llumnix_kv.Shape.Hybrid.InLayers.{
  hybrid_eq-Safe, hybrid_gt-Safe, hybrid_lt-Safe, flashinfer_eq-Safe, flashinfer_gt-Safe,
  next_flashinfer_eq-Safe, next_flashinfer_gt-Safe, next_flashinfer_lt-Safe, turboquant_eq-Safe,
  turboquant_gt-Safe,
}
use llumnix_kv.Stub.Selection.{ParseBlockFunc}

-- The type of the functions that `parse_block` points to.
abbrev pub Generator : Type 0
Generator =
    WorkerInfo → WorkerInfo → List Bool → ℕ → ℕ → ReqSendTask → SendBlocks → Result SendBlocks

unfoldable pub call_parse_block : Env → ParseBlockFunc → Generator
call_parse_block env ParseBlockFunc.parse_block_send_p_eq_d = Ragged.parse_block_send_p_eq_d env
call_parse_block env ParseBlockFunc.parse_block_send_p_gt_d_dpsk =
    Ragged.parse_block_send_p_gt_d_dpsk env
call_parse_block env ParseBlockFunc.parse_block_send_p_gt_d = Ragged.parse_block_send_p_gt_d env
call_parse_block env ParseBlockFunc.parse_block_send_p_lt_d = Ragged.parse_block_send_p_lt_d env
call_parse_block env ParseBlockFunc.vllm_parse_block_send_p_eq_d =
    Flash.vllm_parse_block_send_p_eq_d env
call_parse_block env ParseBlockFunc.vllm_parse_block_send_p_gt_d =
    Flash.vllm_parse_block_send_p_gt_d env
call_parse_block env ParseBlockFunc.vllm_parse_hybrid_block_send_p_eq_d_block_aligned =
    Send.vllm_parse_hybrid_block_send_p_eq_d_block_aligned env
call_parse_block env ParseBlockFunc.vllm_parse_hybrid_block_send_p_gt_d =
    Send.vllm_parse_hybrid_block_send_p_gt_d env
call_parse_block env ParseBlockFunc.vllm_parse_hybrid_block_send_p_lt_d =
    Send.vllm_parse_hybrid_block_send_p_lt_d env
call_parse_block env ParseBlockFunc.vllm_parse_block_send_multi_tensor_p_eq_d =
    Dpsk.vllm_parse_block_send_multi_tensor_p_eq_d env
call_parse_block env ParseBlockFunc.vllm_parse_block_send_multi_tensor_p_gt_d =
    Dpsk.vllm_parse_block_send_multi_tensor_p_gt_d env
call_parse_block env ParseBlockFunc.vllm_parse_block_send_multi_tensor_p_lt_d =
    Dpsk.vllm_parse_block_send_multi_tensor_p_lt_d env
call_parse_block env ParseBlockFunc.vllm_parse_flashinfer_block_send_p_eq_d =
    FlashInfer.vllm_parse_flashinfer_block_send_p_eq_d env
call_parse_block env ParseBlockFunc.vllm_parse_flashinfer_block_send_p_gt_d =
    FlashInfer.vllm_parse_flashinfer_block_send_p_gt_d env
call_parse_block env ParseBlockFunc.vllm_parse_qwen3_next_flashinfer_block_send_p_eq_d =
    FlashInferSend.vllm_parse_qwen3_next_flashinfer_block_send_p_eq_d env
call_parse_block env ParseBlockFunc.vllm_parse_qwen3_next_flashinfer_block_send_p_gt_d =
    FlashInferSend.vllm_parse_qwen3_next_flashinfer_block_send_p_gt_d env
call_parse_block env ParseBlockFunc.vllm_parse_qwen3_next_flashinfer_block_send_p_lt_d =
    FlashInferLt.vllm_parse_qwen3_next_flashinfer_block_send_p_lt_d env
call_parse_block env ParseBlockFunc.parse_kimi_k3_mla_block_send_p_eq_d =
    KimiK3.parse_kimi_k3_mla_block_send_p_eq_d env
call_parse_block env ParseBlockFunc.parse_kimi_k3_mla_block_send_p_gt_d =
    KimiK3.parse_kimi_k3_mla_block_send_p_gt_d env
call_parse_block env ParseBlockFunc.parse_kimi_k3_mla_block_send_p_lt_d =
    KimiK3.parse_kimi_k3_mla_block_send_p_lt_d env
call_parse_block env ParseBlockFunc.turboquant_parse_block_send_p_eq_d =
    Send.turboquant_parse_block_send_p_eq_d env
call_parse_block env ParseBlockFunc.turboquant_parse_block_send_p_gt_d =
    Send.turboquant_parse_block_send_p_gt_d env

module _ (env : Env) (src dst : WorkerInfo) (i : ℕ) (bounds : IpcBlockBounds)
    (made : make_ipc_block_bounds env src dst i ≡ ok bounds) (valid_ranks : List Bool) (tp rank : ℕ)
    (task : ReqSendTask) (sbs : SendBlocks) where
  call-Safe :
      (f : ParseBlockFunc)
      → Safe env src dst i bounds made sbs
      → Ensures
          (Safe env src dst i bounds made)
          (call_parse_block env f src dst valid_ranks tp rank task sbs)
  unfolding call_parse_block
  call-Safe ParseBlockFunc.parse_block_send_p_eq_d h =
      ragged_eq-Safe env src dst i bounds made valid_ranks tp rank task sbs h
  call-Safe ParseBlockFunc.parse_block_send_p_gt_d_dpsk h =
      ragged_gt_dpsk-Safe env src dst i bounds made valid_ranks tp rank task sbs h
  call-Safe ParseBlockFunc.parse_block_send_p_gt_d h =
      ragged_gt-Safe env src dst i bounds made valid_ranks tp rank task sbs h
  call-Safe ParseBlockFunc.parse_block_send_p_lt_d h =
      ragged_lt-Safe env src dst i bounds made valid_ranks tp rank task sbs h
  call-Safe ParseBlockFunc.vllm_parse_block_send_p_eq_d h =
      flash_eq-Safe env src dst i bounds made valid_ranks tp rank task sbs h
  call-Safe ParseBlockFunc.vllm_parse_block_send_p_gt_d h =
      flash_gt-Safe env src dst i bounds made valid_ranks tp rank task sbs h
  call-Safe ParseBlockFunc.vllm_parse_hybrid_block_send_p_eq_d_block_aligned h =
      hybrid_eq-Safe env src dst i bounds made valid_ranks tp rank task sbs h
  call-Safe ParseBlockFunc.vllm_parse_hybrid_block_send_p_gt_d h =
      hybrid_gt-Safe env src dst i bounds made valid_ranks tp rank task sbs h
  call-Safe ParseBlockFunc.vllm_parse_hybrid_block_send_p_lt_d h =
      hybrid_lt-Safe env src dst i bounds made valid_ranks tp rank task sbs h
  call-Safe ParseBlockFunc.vllm_parse_block_send_multi_tensor_p_eq_d h =
      dpsk_eq-Safe env src dst i bounds made valid_ranks tp rank task sbs h
  call-Safe ParseBlockFunc.vllm_parse_block_send_multi_tensor_p_gt_d h =
      dpsk_gt-Safe env src dst i bounds made valid_ranks tp rank task sbs h
  call-Safe ParseBlockFunc.vllm_parse_block_send_multi_tensor_p_lt_d h =
      dpsk_lt-Safe env src dst i bounds made valid_ranks tp rank task sbs h
  call-Safe ParseBlockFunc.vllm_parse_flashinfer_block_send_p_eq_d h =
      flashinfer_eq-Safe env src dst i bounds made valid_ranks tp rank task sbs h
  call-Safe ParseBlockFunc.vllm_parse_flashinfer_block_send_p_gt_d h =
      flashinfer_gt-Safe env src dst i bounds made valid_ranks tp rank task sbs h
  call-Safe ParseBlockFunc.vllm_parse_qwen3_next_flashinfer_block_send_p_eq_d h =
      next_flashinfer_eq-Safe env src dst i bounds made valid_ranks tp rank task sbs h
  call-Safe ParseBlockFunc.vllm_parse_qwen3_next_flashinfer_block_send_p_gt_d h =
      next_flashinfer_gt-Safe env src dst i bounds made valid_ranks tp rank task sbs h
  call-Safe ParseBlockFunc.vllm_parse_qwen3_next_flashinfer_block_send_p_lt_d h =
      next_flashinfer_lt-Safe env src dst i bounds made valid_ranks tp rank task sbs h
  call-Safe ParseBlockFunc.parse_kimi_k3_mla_block_send_p_eq_d h =
      kimi_eq-Safe env src dst i bounds made valid_ranks tp rank task sbs h
  call-Safe ParseBlockFunc.parse_kimi_k3_mla_block_send_p_gt_d h =
      kimi_gt-Safe env src dst i bounds made valid_ranks tp rank task sbs h
  call-Safe ParseBlockFunc.parse_kimi_k3_mla_block_send_p_lt_d h =
      kimi_lt-Safe env src dst i bounds made valid_ranks tp rank task sbs h
  call-Safe ParseBlockFunc.turboquant_parse_block_send_p_eq_d h =
      turboquant_eq-Safe env src dst i bounds made valid_ranks tp rank task sbs h
  call-Safe ParseBlockFunc.turboquant_parse_block_send_p_gt_d h =
      turboquant_gt-Safe env src dst i bounds made valid_ranks tp rank task sbs h

  -- For each of the 22 block generators that a sender calls through its pointer: after a successful
  -- run, every block of cache tensor `i`, whose bounds are `bounds`, reads and writes within the
  -- two layers, if the blocks that were there before did.
  pub call_parse_block-in_bounds :
      (f : ParseBlockFunc) (out : SendBlocks)
      → All (InBounds bounds) (get_or sbs i [])
      → call_parse_block env f src dst valid_ranks tp rank task sbs ≡ ok out
      → All (InBounds bounds) (get_or out i [])
  call_parse_block-in_bounds f out h e = (call-Safe f h).holds out e
