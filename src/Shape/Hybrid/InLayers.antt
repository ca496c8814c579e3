-- ===== src/Shape/Hybrid/InLayers.antt =====
-- The blocks of every successful run of the generators of kvtransfer/src/parse_block_qwen3_next.cpp,
-- parse_block_flashinfer.cpp, parse_block_qwen3_next_flashinfer.cpp and parse_block_turboquant.cpp lie
-- within the two layers.
use llumnix_kv.Base.{
  ℕ, ◌≡◌, Bool, List, [], set, ok, at, All, Result, Ensures, Ensures-ok, Ensures-bind, Ensures-seq,
  Ensures-if,
}
use llumnix_kv.Env.{Env}
use llumnix_kv.Types.{IpcBlock, WorkerInfo, ReqSendTask}
use llumnix_kv.Bounds.{IpcBlockBounds, make_ipc_block_bounds}
use llumnix_kv.Bounds.Checked.{IsBounds, InBounds}
use llumnix_kv.Shape.{SendBlocks, resize}
use llumnix_kv.Shape.Safety.{Safe, blocks-Fine, step-Fine, write-Safe, at_get, resize_keeps}
use llumnix_kv.Shape.Hybrid.Send.{
  vllm_parse_hybrid_block_send_p_eq_d_block_aligned, vllm_parse_hybrid_block_send_p_gt_d,
  vllm_parse_hybrid_block_send_p_lt_d, turboquant_parse_block_send_p_eq_d,
  turboquant_parse_block_send_p_gt_d,
}
use llumnix_kv.Shape.Hybrid.FlashInfer.{
  flashinfer_send, vllm_parse_flashinfer_block_send_p_eq_d, flashinfer_gt_selected,
  vllm_parse_flashinfer_block_send_p_gt_d,
}
use llumnix_kv.Shape.Hybrid.FlashInferSend.{
  vllm_parse_qwen3_next_flashinfer_block_send_p_eq_d,
  vllm_parse_qwen3_next_flashinfer_block_send_p_gt_d,
}
use llumnix_kv.Shape.Hybrid.FlashInferLt.{vllm_parse_qwen3_next_flashinfer_block_send_p_lt_d}
use llumnix_kv.Shape.Hybrid.StatesSafe.{
  group-Within, aligned_indexer-Within, indexer_gt-Within, states_eq-Within, states_gt-Within,
  states_lt-Within,
}
use llumnix_kv.Shape.Hybrid.HndSafe.{hnd-Within}
use llumnix_kv.Shape.Hybrid.AttnSafe.{
  do_gt-Within, replicated_lt-Within, sliced_lt-Within, hnd_gt-Within, hnd_replicated-Within,
  hnd_sliced-Within,
}

module _ (env : Env) (src dst : WorkerInfo) (i : ℕ) (bounds : IpcBlockBounds)
    (made : make_ipc_block_bounds env src dst i ≡ ok bounds) (valid_ranks : List Bool) (tp rank : ℕ)
    (task : ReqSendTask) (sbs : SendBlocks) (h : Safe env src dst i bounds made sbs) where
  abbrev S : SendBlocks → Type 0
  S = Safe env src dst i bounds made

  resized : (n : ℕ) → S (resize n sbs)
  resized n = resize_keeps (All (InBounds bounds)) n sbs i tt h

  -- The only cache tensor.
  module _ (n : ℕ) (blocks : List IpcBlock) (bj : IpcBlockBounds)
      (at0 : at (resize n sbs) 0 ≡ ok blocks)
      (made' : make_ipc_block_bounds env src dst 0 ≡ ok bj) where
    abbrev F : List IpcBlock → Type 0
    F bs = i ≡ 0 → All (InBounds bj) bs

    start : F blocks
    start =
        blocks-Fine env src dst i bounds made (resize n sbs) 0 blocks bj (at_get _ 0 [] blocks at0)
          made' (resized n)

    step :
        (bs : List IpcBlock) (gen : Result (List IpcBlock))
        → F bs
        → (IsBounds bj → All (InBounds bj) bs → Ensures (All (InBounds bj)) gen)
        → Ensures F gen
    step bs gen f g =
        step-Fine env src dst i bounds made (resize n sbs) 0 blocks bj (at_get _ 0 [] blocks at0)
          made' (resized n) bs gen g f

    finish : (out : List IpcBlock) → F out → Ensures S (ok (set (resize n sbs) 0 out))
    finish out f =
        write-Safe env src dst i bounds made (resize n sbs) 0 blocks bj (at_get _ 0 [] blocks at0)
          made' (resized n) out f

  pub hybrid_eq-Safe :
      Ensures S
        (vllm_parse_hybrid_block_send_p_eq_d_block_aligned env src dst valid_ranks tp rank task sbs)
  unfolding vllm_parse_hybrid_block_send_p_eq_d_block_aligned
  hybrid_eq-Safe = Ensures-bind λ _ _. Ensures-bind λ _ _. Ensures-bind λ _ _. Ensures-bind λ _ _.
      Ensures-bind λ _ _. Ensures-bind λ _ _. Ensures-bind λ _ _. Ensures-bind λ _ _.
        Ensures-bind λ _ _. Ensures-bind λ blocks at0. Ensures-bind λ bj made'. Ensures-bind λ _ _.
          Ensures-bind λ _ _. Ensures-bind λ _ _. Ensures-bind λ _ _. Ensures-bind λ _ _.
            Ensures-bind λ _ _. Ensures-bind λ _ _. Ensures-bind λ _ _.
              let s = step _ blocks bj at0 made' in
              Ensures-seq
                (s blocks _ (start _ blocks bj at0 made')
                  (λ v w. aligned_indexer-Within v env src dst task _ blocks w))
                λ indexed k.
                  Ensures-seq
                    (s indexed _ k (λ v w. group-Within v env src dst task _ _ _ indexed w))
                    λ attn k'.
                      Ensures-seq
                        (s attn _ k' (λ v w. states_eq-Within v env src dst task _ attn w))
                        λ out m. finish _ blocks bj at0 made' out m

  pub hybrid_gt-Safe :
      Ensures S (vllm_parse_hybrid_block_send_p_gt_d env src dst valid_ranks tp rank task sbs)
  unfolding vllm_parse_hybrid_block_send_p_gt_d
  hybrid_gt-Safe = Ensures-bind λ _ _. Ensures-bind λ _ _. Ensures-bind λ _ _. Ensures-bind λ _ _.
      Ensures-bind λ _ _. Ensures-bind λ _ _. Ensures-bind λ _ _. Ensures-bind λ _ _.
        Ensures-bind λ _ _. Ensures-bind λ blocks at0. Ensures-bind λ bj made'.
          Ensures-seq
            (step _ blocks bj at0 made' blocks _ (start _ blocks bj at0 made')
              (λ v w. do_gt-Within v env src dst task _ _ _ _ _ _ _ valid_ranks blocks w))
            λ out m. finish _ blocks bj at0 made' out m

  pub hybrid_lt-Safe :
      Ensures S (vllm_parse_hybrid_block_send_p_lt_d env src dst valid_ranks tp rank task sbs)
  unfolding vllm_parse_hybrid_block_send_p_lt_d
  hybrid_lt-Safe = Ensures-bind λ _ _. Ensures-bind λ sizes _. Ensures-bind λ blocks at0.
      Ensures-bind λ bj made'. Ensures-bind λ _ _. Ensures-bind λ _ _.
        let s = step _ blocks bj at0 made' in
        Ensures-seq
          (s blocks _ (start _ blocks bj at0 made') (λ v w.
            Ensures-if _ (replicated_lt-Within v env src dst task sizes blocks w)
              (sliced_lt-Within v env src dst task _ sizes blocks w)))
          λ attn k.
            Ensures-seq (s attn _ k (λ v w. states_lt-Within v env src dst task _ attn w))
              λ out m. finish _ blocks bj at0 made' out m

  pub turboquant_eq-Safe :
      Ensures S (turboquant_parse_block_send_p_eq_d env src dst valid_ranks tp rank task sbs)
  unfolding turboquant_parse_block_send_p_eq_d
  turboquant_eq-Safe = hybrid_eq-Safe

  pub turboquant_gt-Safe :
      Ensures S (turboquant_parse_block_send_p_gt_d env src dst valid_ranks tp rank task sbs)
  unfolding turboquant_parse_block_send_p_gt_d
  turboquant_gt-Safe = hybrid_gt-Safe

  flashinfer_send-Safe : (n off : ℕ) → Ensures S (flashinfer_send env src dst n off task sbs)
  unfolding flashinfer_send
  flashinfer_send-Safe n off = Ensures-bind λ _ _. Ensures-bind λ _ _. Ensures-bind λ _ _.
      Ensures-bind λ _ _. Ensures-bind λ s _. Ensures-bind λ d _. Ensures-bind λ _ _.
        Ensures-bind λ blocks at0. Ensures-bind λ bj made'.
          Ensures-seq
            (step 1 blocks bj at0 made' blocks _ (start 1 blocks bj at0 made')
              (λ v w. hnd-Within v env _ _ _ _ s d _ _ n off _ _ blocks w))
            λ out m. finish 1 blocks bj at0 made' out m

  pub flashinfer_eq-Safe :
      Ensures S (vllm_parse_flashinfer_block_send_p_eq_d env src dst valid_ranks tp rank task sbs)
  unfolding vllm_parse_flashinfer_block_send_p_eq_d
  flashinfer_eq-Safe = Ensures-bind λ _ _. flashinfer_send-Safe 1 0

  pub flashinfer_gt-Safe :
      Ensures S (vllm_parse_flashinfer_block_send_p_gt_d env src dst valid_ranks tp rank task sbs)
  unfolding vllm_parse_flashinfer_block_send_p_gt_d flashinfer_gt_selected
  flashinfer_gt-Safe = Ensures-bind λ _ _.
      Ensures-if _
        (Ensures-bind λ n _.
          Ensures-bind λ off _. Ensures-bind λ _ _. Ensures-bind λ _ _. flashinfer_send-Safe n off)
        (Ensures-ok h)

  pub next_flashinfer_eq-Safe :
      Ensures S (
        vllm_parse_qwen3_next_flashinfer_block_send_p_eq_d env src dst valid_ranks tp rank task sbs)
  unfolding vllm_parse_qwen3_next_flashinfer_block_send_p_eq_d
  next_flashinfer_eq-Safe = Ensures-bind λ _ _. Ensures-bind λ _ _. Ensures-bind λ _ _.
      Ensures-bind λ _ _. Ensures-bind λ _ _. Ensures-bind λ _ _. Ensures-bind λ _ _.
        Ensures-bind λ _ _. Ensures-bind λ _ _. Ensures-bind λ _ _. Ensures-bind λ blocks at0.
          Ensures-bind λ bj made'. Ensures-bind λ _ _. Ensures-bind λ _ _. Ensures-bind λ _ _.
            let s = step _ blocks bj at0 made' in
            Ensures-seq
              (s blocks _ (start _ blocks bj at0 made')
                (λ v w. aligned_indexer-Within v env src dst task _ blocks w))
              λ indexed k. Ensures-bind λ _ _. Ensures-bind λ _ _.
                Ensures-seq (s indexed _ k (λ v w. group-Within v env src dst task _ _ _ indexed w))
                  λ attn k'.
                    Ensures-seq (s attn _ k' (λ v w. states_eq-Within v env src dst task _ attn w))
                      λ out m. finish _ blocks bj at0 made' out m

  pub next_flashinfer_gt-Safe :
      Ensures S (
        vllm_parse_qwen3_next_flashinfer_block_send_p_gt_d env src dst valid_ranks tp rank task sbs)
  unfolding vllm_parse_qwen3_next_flashinfer_block_send_p_gt_d
  next_flashinfer_gt-Safe = Ensures-bind λ _ _. Ensures-bind λ _ _. Ensures-bind λ _ _.
      Ensures-bind λ _ _. Ensures-bind λ _ _. Ensures-bind λ _ _. Ensures-bind λ _ _.
        Ensures-bind λ _ _. Ensures-bind λ _ _. Ensures-bind λ _ _. Ensures-bind λ _ _.
          Ensures-bind λ blocks at0. Ensures-bind λ bj made'. Ensures-bind λ _ _.
            Ensures-bind λ _ _. Ensures-bind λ _ _.
              let s = step _ blocks bj at0 made' in
              Ensures-seq
                (s blocks _ (start _ blocks bj at0 made')
                  (λ v w. states_gt-Within v env src dst task _ blocks w))
                λ states k.
                  Ensures-seq
                    (s states _ k (λ v w. indexer_gt-Within v env src dst task _ states w))
                    λ indexed k'. Ensures-bind λ _ _. Ensures-bind λ _ _. Ensures-bind λ _ _.
                      Ensures-seq
                        (s indexed _ k' (λ v w.
                          Ensures-if _ (hnd_gt-Within v env src dst task _ _ _ _ _ indexed w)
                            (Ensures-ok w)))
                        λ out m. finish _ blocks bj at0 made' out m

  pub next_flashinfer_lt-Safe :
      Ensures S (
        vllm_parse_qwen3_next_flashinfer_block_send_p_lt_d env src dst valid_ranks tp rank task sbs)
  unfolding vllm_parse_qwen3_next_flashinfer_block_send_p_lt_d
  next_flashinfer_lt-Safe = Ensures-bind λ _ _. Ensures-bind λ _ _. Ensures-bind λ _ _.
      Ensures-bind λ _ _. Ensures-bind λ _ _. Ensures-bind λ _ _. Ensures-bind λ _ _.
        Ensures-bind λ _ _. Ensures-bind λ blocks at0. Ensures-bind λ bj made'. Ensures-bind λ _ _.
          Ensures-bind λ _ _. Ensures-bind λ _ _.
            let s = step _ blocks bj at0 made' in
            Ensures-seq
              (s blocks _ (start _ blocks bj at0 made') (λ v w.
                Ensures-if _ (hnd_replicated-Within v env src dst task _ blocks w)
                  (hnd_sliced-Within v env src dst task _ _ blocks w)))
              λ attn k.
                Ensures-seq (s attn _ k (λ v w. states_lt-Within v env src dst task _ attn w))
                  λ out m. finish _ blocks bj at0 made' out m
