-- ===== src/Shape/Hybrid/HndSafe.antt =====
-- The loops of kvtransfer/src/parse_block_flashinfer.cpp and of the HND blocks of
-- parse_block_qwen3_next_flashinfer.cpp leave blocks within the two layers.
use llumnix_kv.Base.{
  ℕ, Bool, List, Ensures, Ensures-ok, Ensures-bind, Ensures-seq, Ensures-if, Ensures-while,
  Ensures-range,
}
use llumnix_kv.Env.{Env}
use llumnix_kv.Types.{IpcBlock}
use llumnix_kv.Bounds.{IpcBlockBounds}
use llumnix_kv.Bounds.Checked.{IsBounds}
use llumnix_kv.Parse.{Cursor}
use llumnix_kv.Parse.Safety.{Within, append-Within, zero_fill-Within}
use llumnix_kv.Shape.Hybrid.AttnFill.{Position}
use llumnix_kv.Shape.Hybrid.Hnd.{
  HeadSizes, send_head, hnd_step, parse_flashinfer_hnd_block, KernelSizes, hybrid_hnd_step,
  parse_hybrid_flashinfer_hnd_block, zero_head, fill_last_heads,
  fill_last_hybrid_flashinfer_hnd_block,
}
use llumnix_kv.Shape.Hybrid.FlashInferLt.{
  hnd_tail_step, hnd_tail_tokens, fill_tail_hybrid_flashinfer_hnd_block_p_lt_d,
}

module _ {bounds : IpcBlockBounds} (v : IsBounds bounds) (env : Env) where
  abbrev Here : Cursor → Type 0
  Here c = Within v c.blocks

  head-Within :
      (g : HeadSizes) (swap : Bool) (off p d i j taken k : ℕ) (blocks : List IpcBlock)
      → Within v blocks
      → Ensures (Within v) (send_head g bounds swap off p d i j taken k blocks)
  unfolding send_head
  head-Within g swap off p d i j taken k blocks h =
      Ensures-seq (append-Within v blocks _ _ _ h) λ ks w. append-Within v ks _ _ _ w

  hnd_step-Here :
      (g : HeadSizes) (p d ntpb : ℕ) (s t : List ℕ) (off : ℕ) (swap : Bool) (c : Cursor)
      → Here c
      → Ensures Here (hnd_step g p d ntpb s t off bounds swap c)
  unfolding hnd_step
  hnd_step-Here g p d ntpb s t off swap c h = Ensures-bind λ _ _. Ensures-bind λ _ _.
      Ensures-bind λ _ _. Ensures-bind λ _ _.
        Ensures-seq {Q = Within v}
          (Ensures-range _ _ _ _ (λ i bs k. head-Within g swap off _ _ _ _ _ i bs k) h)
          λ _ w. Ensures-ok w

  pub hnd-Within :
      (token p d ntpb : ℕ) (s t : List ℕ) (wrote left n off heads : ℕ) (swap : Bool)
      (blocks : List IpcBlock)
      → Within v blocks
      → Ensures (Within v) (
          parse_flashinfer_hnd_block env token p d ntpb s t wrote left n off heads bounds swap
            blocks)
  unfolding parse_flashinfer_hnd_block
  hnd-Within token p d ntpb s t wrote left n off heads swap blocks h = Ensures-bind λ _ _.
      Ensures-bind λ _ _.
        Ensures-seq {Q = Here}
          (Ensures-while _ _ _ _ (λ c k. hnd_step-Here _ p d ntpb s t off swap c k) h)
          λ _ w. Ensures-ok w

  hybrid_step-Here :
      (k : KernelSizes) (g : HeadSizes) (s t : List ℕ) (off : ℕ) (swap : Bool) (c : Cursor)
      → Here c
      → Ensures Here (hybrid_hnd_step env k g s t off bounds swap c)
  unfolding hybrid_hnd_step
  hybrid_step-Here k g s t off swap c h = Ensures-bind λ _ _. Ensures-bind λ _ _.
      Ensures-bind λ _ _. Ensures-bind λ _ _. Ensures-bind λ _ _. Ensures-bind λ _ _.
        Ensures-bind λ _ _. Ensures-bind λ _ _. Ensures-bind λ _ _.
          Ensures-seq {Q = Within v}
            (Ensures-range _ _ _ _ (λ i bs m. head-Within g swap off _ _ _ _ _ i bs m) h)
            λ _ w. Ensures-ok w

  pub hybrid_hnd-Within :
      (k : KernelSizes) (s t : List ℕ) (wrote left n off heads : ℕ) (swap : Bool)
      (blocks : List IpcBlock)
      → Within v blocks
      → Ensures
          (Within v)
          (parse_hybrid_flashinfer_hnd_block env k s t wrote left n off heads bounds swap blocks)
  unfolding parse_hybrid_flashinfer_hnd_block
  hybrid_hnd-Within k s t wrote left n off heads swap blocks h = Ensures-bind λ _ _.
      Ensures-bind λ _ _. Ensures-bind λ _ _. Ensures-bind λ _ _.
        Ensures-seq {Q = Here}
          (Ensures-while _ _ _ _ (λ c m. hybrid_step-Here k _ s t off swap c m) h)
          λ _ w. Ensures-ok w

  zero_head-Within :
      (z base head kv size seg i : ℕ) (blocks : List IpcBlock)
      → Within v blocks
      → Ensures (Within v) (zero_head env bounds z base head kv size seg i blocks)
  unfolding zero_head
  zero_head-Within z base head kv size seg i blocks h =
      Ensures-seq (zero_fill-Within v env _ _ _ _ blocks h)
        λ ks w. zero_fill-Within v env _ _ _ _ ks w

  pub fill_last_hnd-Within :
      (k : KernelSizes) (s t : List ℕ) (total off heads : ℕ) (blocks : List IpcBlock)
      → Within v blocks
      → Ensures
          (Within v)
          (fill_last_hybrid_flashinfer_hnd_block env k s t total off heads bounds blocks)
  unfolding fill_last_hybrid_flashinfer_hnd_block fill_last_heads
  fill_last_hnd-Within k s t total off heads blocks h = Ensures-if _ (Ensures-ok h) (
      Ensures-bind λ _ _. Ensures-if _ (Ensures-ok h) (
        Ensures-bind λ _ _. Ensures-bind λ _ _. Ensures-bind λ _ _. Ensures-bind λ _ _.
          Ensures-bind
            λ _ _. Ensures-range _ _ _ _ (λ i bs m. zero_head-Within _ _ _ _ _ _ i bs m) h))

  tail_step-Within :
      (p d ntpb dim heads z : ℕ) (t : List ℕ) (stop : ℕ) (s : Position)
      → Within v s.blocks
      → Ensures
          (λ (r : Position). Within v r.blocks)
          (hnd_tail_step env p d ntpb dim heads z t stop bounds s)
  unfolding hnd_tail_step
  tail_step-Within p d ntpb dim heads z t stop s h = Ensures-bind λ _ _. Ensures-bind λ _ _.
      Ensures-bind λ _ _. Ensures-bind λ _ _.
        Ensures-seq {Q = Within v}
          (Ensures-range _ _ _ _ (λ i bs m. zero_head-Within _ _ _ _ _ _ i bs m) h)
          λ _ w. Ensures-ok w

  pub fill_tail_hnd-Within :
      (p d ntpb dim heads : ℕ) (s t : List ℕ) (total : ℕ) (blocks : List IpcBlock)
      → Within v blocks
      → Ensures (Within v) (
          fill_tail_hybrid_flashinfer_hnd_block_p_lt_d env p d ntpb dim heads s t total bounds
            blocks)
  unfolding fill_tail_hybrid_flashinfer_hnd_block_p_lt_d hnd_tail_tokens
  fill_tail_hnd-Within p d ntpb dim heads s t total blocks h = Ensures-if _ (Ensures-ok h) (
      Ensures-bind λ _ _.
        Ensures-seq {Q = λ (r : Position). Within v r.blocks}
          (Ensures-while _ _ _ _ (λ r m. tail_step-Within p d ntpb dim heads _ t _ r m) h)
          λ _ w. Ensures-ok w)
