-- ===== src/Shape/InLayers.antt =====
-- The blocks of every successful run of the generators of kvtransfer/src/parse_block_ragged.cpp,
-- parse_block_flash.cpp and parse_block_dpsk.cpp lie within the two layers of their cache tensor.
use llumnix_kv.Base.{
  ℕ, ◌≡◌, Bool, true, false, List, [], ok, All, Ensures, Ensures-ok, Ensures-bind, Ensures-if,
  Ensures-range, for_range,
}
use llumnix_kv.Env.{Env}
use llumnix_kv.Types.{IpcBlock, WorkerInfo, ReqSendTask}
use llumnix_kv.Bounds.{IpcBlockBounds, make_ipc_block_bounds}
use llumnix_kv.Bounds.Checked.{IsBounds, InBounds}
use llumnix_kv.Parse.Safety.{Within, append-Within, p_eq_d-Within, gt-Within}
use llumnix_kv.Shape.{SendBlocks, resize}
use llumnix_kv.Shape.Ragged.{
  do_parse_block_send_internal, parse_block_send_p_eq_d, send_as_rank_0,
  parse_block_send_p_gt_d_dpsk, parse_block_send_p_gt_d, parse_block_send_p_lt_d,
}
use llumnix_kv.Shape.Flash.{
  append_shifted, vllm_parse_block_send_p_eq_d, vllm_gt_selected, vllm_parse_block_send_p_gt_d,
}
use llumnix_kv.Shape.Dpsk.{
  multi_tensor_cache, do_multi_tensor_parse_block_send, same_cache, multi_tensor_selected,
  vllm_parse_block_send_multi_tensor_p_eq_d, multi_tensor_rank_0, multi_tensor_grouped,
  vllm_parse_block_send_multi_tensor_p_gt_d, vllm_parse_block_send_multi_tensor_p_lt_d,
}
use llumnix_kv.Shape.Safety.{
  Safe, cache_step, cache_steps, append_v-Within, at_get, index_get, resize_keeps,
}

append_shifted-Within :
    {bounds : IpcBlockBounds} (v : IsBounds bounds) (s d n i : ℕ) (ks : List IpcBlock)
    → Within v ks
    → Ensures (Within v) (for_range n i (append_shifted bounds s d) ks)
unfolding append_shifted
append_shifted-Within v s d n i ks h =
    Ensures-range n i _ ks (λ j blocks k. Ensures-bind λ _ _. append-Within v blocks _ _ _ k) h

module _ (env : Env) (src dst : WorkerInfo) (i : ℕ) (bounds : IpcBlockBounds)
    (made : make_ipc_block_bounds env src dst i ≡ ok bounds) where
  abbrev S : SendBlocks → Type 0
  S = Safe env src dst i bounds made

  resized : (n : ℕ) (sbs : SendBlocks) → S sbs → S (resize n sbs)
  resized n sbs h = resize_keeps (All (InBounds bounds)) n sbs i tt h

  internal-Safe :
      (p d : WorkerInfo) (p_tp d_tp : ℕ) (p_blocks d_blocks : List ℕ) (wrote left : ℕ)
      (bj : IpcBlockBounds) (swap : Bool) (sbs : SendBlocks)
      → make_ipc_block_bounds env src dst 0 ≡ ok bj
      → S sbs
      → Ensures S
          (do_parse_block_send_internal env p p_tp p_blocks d d_tp d_blocks wrote left bj swap sbs)
  unfolding do_parse_block_send_internal
  internal-Safe p d p_tp d_tp p_blocks d_blocks wrote left bj swap sbs made' h = Ensures-bind λ _ _.
      Ensures-bind λ _ _. Ensures-bind λ _ _. Ensures-bind λ _ _. Ensures-bind λ _ _.
        Ensures-bind λ _ _. Ensures-bind λ _ _. Ensures-bind λ _ _. Ensures-bind λ _ _.
          Ensures-bind λ _ _. Ensures-bind λ _ _. Ensures-bind λ blocks at0. Ensures-bind λ _ _.
            Ensures-bind λ _ _. Ensures-bind λ _ _. Ensures-bind λ _ _. Ensures-bind λ _ _.
              Ensures-bind λ _ _. Ensures-bind λ _ _. Ensures-bind λ _ _. Ensures-bind λ _ _.
                Ensures-bind λ _ _. Ensures-bind λ _ _. Ensures-bind λ _ _. Ensures-bind λ _ _.
                  Ensures-bind λ _ _.
                    cache_steps env src dst i bounds made _ 0 blocks bj (at_get _ 0 [] blocks at0)
                      made' (resized _ sbs h) _ _
                      (λ v w. gt-Within v env _ _ _ _ _ p_blocks d_blocks wrote left swap blocks w)
                      (λ v ks w. append_v-Within v env _ _ swap _ _ ks w)

  multi_cache-Safe :
      (p d : WorkerInfo) (p_tp d_tp : ℕ) (p_blocks d_blocks : List ℕ) (wrote left : ℕ) (swap : Bool)
      (j : ℕ) (sbs : SendBlocks)
      → S sbs
      → Ensures S
          (multi_tensor_cache env p p_tp p_blocks d d_tp d_blocks wrote left src dst swap j sbs)
  unfolding multi_tensor_cache
  multi_cache-Safe p d p_tp d_tp p_blocks d_blocks wrote left swap j sbs h = Ensures-bind λ _ _.
      Ensures-bind λ _ _. Ensures-bind λ _ _. Ensures-bind λ _ _. Ensures-bind λ blocks atj.
        Ensures-bind λ bj made'. Ensures-bind λ _ _. Ensures-bind λ _ _. Ensures-bind λ _ _.
          Ensures-bind λ _ _. Ensures-bind λ _ _. Ensures-bind λ _ _. Ensures-bind λ _ _.
            Ensures-bind λ _ _. Ensures-bind λ _ _. Ensures-bind λ _ _. Ensures-bind λ _ _.
              Ensures-bind λ _ _. Ensures-bind λ _ _. Ensures-bind λ _ _.
                cache_steps env src dst i bounds made sbs j blocks bj (at_get _ j [] blocks atj)
                  made' h _ _
                  (λ v w. gt-Within v env _ _ _ _ _ p_blocks d_blocks wrote left swap blocks w)
                  (λ v ks w. append_v-Within v env _ _ swap _ _ ks w)

  multi_send-Safe :
      (p d : WorkerInfo) (p_tp d_tp : ℕ) (p_blocks d_blocks : List ℕ) (wrote left : ℕ) (swap : Bool)
      (sbs : SendBlocks)
      → S sbs
      → Ensures S (
          do_multi_tensor_parse_block_send env p p_tp p_blocks d d_tp d_blocks wrote left src dst
            swap sbs)
  unfolding do_multi_tensor_parse_block_send
  multi_send-Safe p d p_tp d_tp p_blocks d_blocks wrote left swap sbs h = Ensures-bind λ _ _.
      Ensures-bind λ _ _. Ensures-bind λ _ _.
        Ensures-range _ _ _ _
          (λ j sbs' k. multi_cache-Safe p d p_tp d_tp p_blocks d_blocks wrote left swap j sbs' k)
          (resized _ sbs h)

  same_cache-Safe :
      (task : ReqSendTask) (j : ℕ) (sbs : SendBlocks)
      → S sbs
      → Ensures S (same_cache env src dst task j sbs)
  unfolding same_cache
  same_cache-Safe task j sbs h = Ensures-bind λ blocks atj. Ensures-bind λ bj made'.
      Ensures-bind λ _ _. Ensures-bind λ _ _.
        cache_step env src dst i bounds made sbs j blocks bj (at_get _ j [] blocks atj) made' h _
          (λ v w. p_eq_d-Within v env _ _ task blocks w)

  module _ (valid_ranks : List Bool) (tp rank : ℕ) (task : ReqSendTask) (sbs : SendBlocks)
      (h : S sbs) where
    pub ragged_eq-Safe :
        Ensures S (parse_block_send_p_eq_d env src dst valid_ranks tp rank task sbs)
    unfolding parse_block_send_p_eq_d
    ragged_eq-Safe = Ensures-bind λ _ _. Ensures-bind λ _ _. Ensures-bind λ _ _. Ensures-bind λ _ _.
        Ensures-bind λ _ _. Ensures-bind λ _ _. Ensures-bind λ _ _. Ensures-bind λ _ _.
          Ensures-bind λ blocks at0. Ensures-bind λ bj made'. Ensures-bind λ _ _.
            Ensures-bind λ _ _.
              cache_step env src dst i bounds made _ 0 blocks bj (index_get _ 0 [] blocks at0) made'
                (resized _ sbs h) _ (λ v w. p_eq_d-Within v env _ _ task blocks w)

    rank_0-Safe : Ensures S (send_as_rank_0 env src dst task sbs)
    unfolding send_as_rank_0
    rank_0-Safe = Ensures-bind λ _ _. Ensures-bind λ _ _. Ensures-bind λ _ _. Ensures-bind λ _ _.
        Ensures-bind λ _ _. Ensures-bind λ blocks at0. Ensures-bind λ bj made'. Ensures-bind λ _ _.
          Ensures-bind λ _ _.
            cache_step env src dst i bounds made _ 0 blocks bj (index_get _ 0 [] blocks at0) made'
              (resized _ sbs h) _ (λ v w. p_eq_d-Within v env _ _ task blocks w)

    pub ragged_gt_dpsk-Safe :
        Ensures S (parse_block_send_p_gt_d_dpsk env src dst valid_ranks tp rank task sbs)
    unfolding parse_block_send_p_gt_d_dpsk
    ragged_gt_dpsk-Safe = Ensures-bind λ _ _. Ensures-if _ rank_0-Safe (Ensures-ok h)

    pub ragged_gt-Safe :
        Ensures S (parse_block_send_p_gt_d env src dst valid_ranks tp rank task sbs)
    unfolding parse_block_send_p_gt_d
    ragged_gt-Safe = Ensures-bind λ bj made'. Ensures-bind λ s _. Ensures-bind λ d _.
        internal-Safe src dst tp dst.engine_tp_size s d task.seen_tokens task.new_tokens bj false
          sbs made' h

    pub ragged_lt-Safe :
        Ensures S (parse_block_send_p_lt_d env src dst valid_ranks tp rank task sbs)
    unfolding parse_block_send_p_lt_d
    ragged_lt-Safe = Ensures-bind λ bj made'. Ensures-bind λ s _. Ensures-bind λ d _.
        internal-Safe dst src dst.engine_tp_size tp d s task.seen_tokens task.new_tokens bj true sbs
          made' h

    pub flash_eq-Safe :
        Ensures S (vllm_parse_block_send_p_eq_d env src dst valid_ranks tp rank task sbs)
    unfolding vllm_parse_block_send_p_eq_d
    flash_eq-Safe = Ensures-bind λ _ _. Ensures-bind λ _ _. Ensures-bind λ _ _. Ensures-bind λ _ _.
        Ensures-bind λ _ _. Ensures-bind λ _ _. Ensures-bind λ _ _. Ensures-bind λ _ _.
          Ensures-bind λ _ _. Ensures-bind λ _ _. Ensures-bind λ _ _. Ensures-bind λ _ _.
            Ensures-bind λ blocks at0. Ensures-bind λ bj made'.
              cache_steps env src dst i bounds made _ 0 blocks bj (at_get _ 0 [] blocks at0) made'
                (resized _ sbs h) _ _ (λ v w. p_eq_d-Within v env _ _ task blocks w)
                (λ v ks w. append_shifted-Within v _ _ _ _ ks w)

    flash_selected-Safe : Ensures S (vllm_gt_selected env src dst valid_ranks tp rank task sbs)
    unfolding vllm_gt_selected
    flash_selected-Safe = Ensures-bind λ _ _. Ensures-bind λ _ _. Ensures-bind λ _ _.
        Ensures-bind λ _ _. Ensures-bind λ _ _. Ensures-bind λ _ _. Ensures-bind λ _ _.
          Ensures-bind λ _ _. Ensures-bind λ _ _. Ensures-bind λ _ _. Ensures-bind λ _ _.
            Ensures-bind λ _ _. Ensures-bind λ _ _. Ensures-bind λ _ _. Ensures-bind λ _ _.
              Ensures-bind λ _ _. Ensures-bind λ _ _. Ensures-bind λ _ _. Ensures-bind λ _ _.
                Ensures-bind λ _ _. Ensures-bind λ _ _. Ensures-bind λ blocks at0.
                  Ensures-bind λ bj made'. Ensures-bind λ s _. Ensures-bind λ d _.
                    cache_steps env src dst i bounds made _ 0 blocks bj (at_get _ 0 [] blocks at0)
                      made' (resized _ sbs h) _ _
                      (λ v w.
                        gt-Within v env _ _ _ _ _ s d task.seen_tokens task.new_tokens false blocks
                          w)
                      (λ v ks w. append_shifted-Within v _ _ _ _ ks w)

    pub flash_gt-Safe :
        Ensures S (vllm_parse_block_send_p_gt_d env src dst valid_ranks tp rank task sbs)
    unfolding vllm_parse_block_send_p_gt_d
    flash_gt-Safe = Ensures-bind λ _ _. Ensures-if _ flash_selected-Safe (Ensures-ok h)

    multi_selected-Safe : Ensures S (multi_tensor_selected env src dst tp rank task sbs)
    unfolding multi_tensor_selected
    multi_selected-Safe = Ensures-bind λ _ _. Ensures-bind λ _ _. Ensures-bind λ _ _.
        Ensures-bind λ _ _. Ensures-bind λ _ _.
          Ensures-bind λ _ _.
            Ensures-range _ _ _ _ (λ j sbs' k. same_cache-Safe task j sbs' k) (resized _ sbs h)

    pub dpsk_eq-Safe :
        Ensures S
          (vllm_parse_block_send_multi_tensor_p_eq_d env src dst valid_ranks tp rank task sbs)
    unfolding vllm_parse_block_send_multi_tensor_p_eq_d
    dpsk_eq-Safe = Ensures-bind λ _ _. Ensures-if _ multi_selected-Safe (Ensures-ok h)

    multi_rank_0-Safe : Ensures S (multi_tensor_rank_0 env src dst task sbs)
    unfolding multi_tensor_rank_0
    multi_rank_0-Safe = Ensures-bind λ _ _. Ensures-bind λ _ _.
        Ensures-bind
          λ _ _. Ensures-range _ _ _ _ (λ j sbs' k. same_cache-Safe task j sbs' k) (resized _ sbs h)

    multi_grouped-Safe : Ensures S (multi_tensor_grouped env src dst tp task sbs)
    unfolding multi_tensor_grouped
    multi_grouped-Safe = Ensures-bind λ s _. Ensures-bind λ d _.
        multi_send-Safe src dst tp dst.engine_tp_size s d task.seen_tokens task.new_tokens false sbs
          h

    pub dpsk_gt-Safe :
        Ensures S
          (vllm_parse_block_send_multi_tensor_p_gt_d env src dst valid_ranks tp rank task sbs)
    unfolding vllm_parse_block_send_multi_tensor_p_gt_d
    dpsk_gt-Safe = Ensures-if _ (Ensures-if _ multi_rank_0-Safe (Ensures-ok h)) multi_grouped-Safe

    pub dpsk_lt-Safe :
        Ensures S
          (vllm_parse_block_send_multi_tensor_p_lt_d env src dst valid_ranks tp rank task sbs)
    unfolding vllm_parse_block_send_multi_tensor_p_lt_d
    dpsk_lt-Safe = Ensures-bind λ d _. Ensures-bind λ s _.
        multi_send-Safe dst src dst.engine_tp_size tp d s task.seen_tokens task.new_tokens true sbs
          h
