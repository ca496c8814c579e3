-- ===== src/Shape/Hybrid/AttnSafe.antt =====
-- The blocks of the parts of a hybrid generator, in kvtransfer/src/parse_block_qwen3_next.cpp and
-- parse_block_qwen3_next_flashinfer.cpp, lie within the layers.
use llumnix_kv.Base.{ℕ, Bool, List, Ensures, Ensures-ok, Ensures-bind, Ensures-seq, Ensures-if}
use llumnix_kv.Env.{Env}
use llumnix_kv.Types.{IpcBlock, WorkerInfo, ReqSendTask}
use llumnix_kv.Bounds.{IpcBlockBounds}
use llumnix_kv.Bounds.Checked.{IsBounds}
use llumnix_kv.Parse.Safety.{Within}
use llumnix_kv.Shape.Hybrid.Attn.{AttnSizes}
use llumnix_kv.Shape.Hybrid.Hnd.{KernelSizes}
use llumnix_kv.Shape.Hybrid.Parts.{PageGroup}
use llumnix_kv.Shape.Hybrid.Send.{
  attn_gt, do_parse_hybrid_block_send_p_gt_d, replicated_lt, sliced_lt,
}
use llumnix_kv.Shape.Hybrid.FlashInferSend.{hnd_gt}
use llumnix_kv.Shape.Hybrid.FlashInferLt.{hnd_replicated_lt, hnd_sliced_lt}
use llumnix_kv.Shape.Hybrid.BlocksSafe.{attn-Within, fill_last-Within, fill_tail_lt-Within}
use llumnix_kv.Shape.Hybrid.StatesSafe.{
  group-Within, aligned_indexer-Within, indexer_gt-Within, indexer_lt-Within, states_gt-Within,
}
use llumnix_kv.Shape.Hybrid.HndSafe.{hybrid_hnd-Within, fill_last_hnd-Within, fill_tail_hnd-Within}

-- The parts of a generator that is given the blocks so far.
module _ {bounds : IpcBlockBounds} (v : IsBounds bounds) (env : Env) (src dst : WorkerInfo)
    (task : ReqSendTask) where
  pub attn_gt-Within :
      (g : AttnSizes) (i off : ℕ) (blocks : List IpcBlock)
      → Within v blocks
      → Ensures (Within v) (attn_gt env g task i off bounds blocks)
  unfolding attn_gt
  attn_gt-Within g i off blocks h = Ensures-bind λ s _. Ensures-bind λ d _.
      Ensures-seq (attn-Within v env g s d _ _ off _ blocks h)
        λ sent w. Ensures-if _ (fill_last-Within v env g s d _ off sent w) (Ensures-ok w)

  pub do_gt-Within :
      (pt dt sn dn ao gn go : ℕ) (ranks : List Bool) (blocks : List IpcBlock)
      → Within v blocks
      → Ensures (Within v) (
          do_parse_hybrid_block_send_p_gt_d env pt dt sn dn ao gn go ranks src dst task bounds
            blocks)
  unfolding do_parse_hybrid_block_send_p_gt_d
  do_gt-Within pt dt sn dn ao gn go ranks blocks h = Ensures-bind λ _ _. Ensures-bind λ _ _.
      Ensures-bind λ _ _. Ensures-seq (states_gt-Within v env src dst task _ blocks h) λ states w.
        Ensures-bind λ _ _.
          Ensures-seq (indexer_gt-Within v env src dst task _ states w) λ indexed k.
            Ensures-bind λ _ _. Ensures-bind λ _ _.
              Ensures-bind λ _ _. Ensures-if _ (attn_gt-Within _ _ ao indexed k) (Ensures-ok k)

  pub replicated_lt-Within :
      (sizes : (ℕ × ℕ) × (ℕ × ℕ)) (blocks : List IpcBlock)
      → Within v blocks
      → Ensures (Within v) (replicated_lt env src dst sizes task bounds blocks)
  unfolding replicated_lt
  replicated_lt-Within sizes blocks h = Ensures-bind λ _ _. Ensures-bind λ _ _. Ensures-bind λ _ _.
      Ensures-bind λ _ _. Ensures-bind λ _ _. Ensures-bind λ _ _.
        Ensures-seq (aligned_indexer-Within v env src dst task _ blocks h)
          λ indexed w. group-Within v env src dst task _ _ _ indexed w

  pub sliced_lt-Within :
      (g : PageGroup) (sizes : (ℕ × ℕ) × (ℕ × ℕ)) (blocks : List IpcBlock)
      → Within v blocks
      → Ensures (Within v) (sliced_lt env src dst g sizes task bounds blocks)
  unfolding sliced_lt
  sliced_lt-Within g sizes blocks h = Ensures-bind λ _ _. Ensures-bind λ _ _. Ensures-bind λ _ _.
      Ensures-bind λ _ _. Ensures-bind λ _ _. Ensures-bind λ _ _.
        Ensures-seq (indexer_lt-Within v env src dst task g blocks h) λ indexed w.
          Ensures-bind λ _ _. Ensures-bind λ _ _. Ensures-bind λ s _. Ensures-bind λ d _.
            Ensures-seq (attn-Within v env _ d s _ _ _ _ indexed w) λ sent k.
              Ensures-if _ (fill_tail_lt-Within v env _ _ _ _ _ _ s d _ sent k) (Ensures-ok k)

  pub hnd_gt-Within :
      (g : KernelSizes) (i n off heads : ℕ) (blocks : List IpcBlock)
      → Within v blocks
      → Ensures (Within v) (hnd_gt env g task i n off heads bounds blocks)
  unfolding hnd_gt
  hnd_gt-Within g i n off heads blocks h = Ensures-bind λ s _. Ensures-bind λ d _.
      Ensures-seq (hybrid_hnd-Within v env g s d _ _ n off heads _ blocks h)
        λ sent w. Ensures-if _ (fill_last_hnd-Within v env g s d _ off heads sent w) (Ensures-ok w)

  pub hnd_replicated-Within :
      (g : KernelSizes) (blocks : List IpcBlock)
      → Within v blocks
      → Ensures (Within v) (hnd_replicated_lt env src dst g task bounds blocks)
  unfolding hnd_replicated_lt
  hnd_replicated-Within g blocks h = Ensures-bind λ _ _. Ensures-bind λ _ _.
      Ensures-seq (aligned_indexer-Within v env src dst task _ blocks h) λ indexed w.
        Ensures-bind λ _ _. Ensures-bind λ _ _. group-Within v env src dst task _ _ _ indexed w

  pub hnd_sliced-Within :
      (p : PageGroup) (g : KernelSizes) (blocks : List IpcBlock)
      → Within v blocks
      → Ensures (Within v) (hnd_sliced_lt env src dst p g task bounds blocks)
  unfolding hnd_sliced_lt
  hnd_sliced-Within p g blocks h = Ensures-bind λ _ _. Ensures-bind λ _ _. Ensures-bind λ _ _.
      Ensures-bind λ _ _. Ensures-seq (indexer_lt-Within v env src dst task p blocks h) λ indexed w.
        Ensures-bind λ _ _. Ensures-bind λ _ _. Ensures-bind λ s _. Ensures-bind λ d _.
          Ensures-seq (hybrid_hnd-Within v env _ d s _ _ _ _ _ _ indexed w) λ sent k.
            Ensures-if _ (fill_tail_hnd-Within v env _ _ _ _ _ s d _ sent k) (Ensures-ok k)
