-- ===== src/Shape/Hybrid/StatesSafe.antt =====
-- The copies of states of kvtransfer/src/parse_block_qwen3_next.cpp, and the parts that the hybrid shapes
-- share, leave blocks within the two layers.
use llumnix_kv.Base.{
  ℕ, List, Ensures, Ensures-ok, Ensures-bind, Ensures-seq, Ensures-if, Ensures-range, Ensures-each,
  for_range,
}
use llumnix_kv.Env.{Env}
use llumnix_kv.Types.{IpcBlock, BlockIds, WorkerInfo, ReqSendTask}
use llumnix_kv.Bounds.{IpcBlockBounds}
use llumnix_kv.Bounds.Checked.{IsBounds}
use llumnix_kv.Parse.Safety.{Within, append-Within}
use llumnix_kv.Shape.Kda.{Placing, place_gt}
use llumnix_kv.Shape.Hybrid.Gdn.{
  GdnSizes, copy_block, copy_group, parse_hybrid_gdn_block_send_p_eq_d, gdn_row_gt, gdn_block_gt,
  gdn_group_gt, parse_hybrid_gdn_block_send_p_gt_d,
}
use llumnix_kv.Shape.Hybrid.GdnLt.{
  gdn_place_lt, gdn_row_lt, gdn_block_lt, gdn_group_lt, parse_hybrid_gdn_block_send_p_lt_d,
}
use llumnix_kv.Shape.Hybrid.ShortConv.{
  copy_ple, parse_hybrid_short_conv_block_send_p_eq_d, short_conv_state, short_conv_gt,
  parse_hybrid_short_conv_block_send_p_gt_d, short_conv_lt,
  parse_hybrid_short_conv_block_send_p_lt_d,
}
use llumnix_kv.Shape.Hybrid.Parts.{
  PageGroup, aligned_group, aligned_indexer, indexer_group, first_indexer, indexer_gt, indexer_lt,
  states_eq, last_states_eq, states_gt, last_states_gt, states_lt, last_states_lt,
}
use llumnix_kv.Shape.Hybrid.BlocksSafe.{aligned-Within, indexer-Within}

module _ {bounds : IpcBlockBounds} (v : IsBounds bounds) (env : Env) where
  abbrev Placed : Placing → Type 0
  Placed s = Within v s.blocks

  copy_group-Within :
      (p d n : ℕ) (s t : BlockIds) (i : ℕ) (blocks : List IpcBlock)
      → Within v blocks
      → Ensures (Within v) (copy_group env bounds p d n s t i blocks)
  unfolding copy_group copy_block
  copy_group-Within p d n s t i blocks h = Ensures-bind λ _ _. Ensures-bind λ _ _.
      Ensures-bind λ _ _. Ensures-bind λ _ _.
        Ensures-range _ _ _ _
          (λ j bs k. Ensures-bind λ _ _. Ensures-bind λ _ _. append-Within v bs _ _ _ k) h

  gdn_eq-Within :
      (n layers : ℕ) (s t : BlockIds) (blocks : List IpcBlock)
      → Within v blocks
      → Ensures (Within v) (parse_hybrid_gdn_block_send_p_eq_d env n layers s t bounds blocks)
  unfolding parse_hybrid_gdn_block_send_p_eq_d
  gdn_eq-Within n layers s t blocks h =
      Ensures-range _ _ _ _ (λ i bs k. copy_group-Within n n n s t i bs k) h

  place_gt-Placed :
      (p d n o unit c : ℕ) (s : Placing)
      → Placed s
      → Ensures Placed (place_gt bounds p d n o unit c s)
  unfolding place_gt
  place_gt-Placed p d n o unit c s h =
      Ensures-seq (append-Within v s.blocks _ _ _ h) λ _ w. Ensures-ok w

  gdn_place_lt-Placed :
      (p d n o unit c : ℕ) (s : Placing)
      → Placed s
      → Ensures Placed (gdn_place_lt env bounds p d n o unit c s)
  unfolding gdn_place_lt
  gdn_place_lt-Placed p d n o unit c s h = Ensures-bind λ _ _.
      Ensures-bind λ _ _.
        Ensures-bind λ _ _. Ensures-seq (append-Within v s.blocks _ _ _ h) λ _ w. Ensures-ok w

  module _ (src : WorkerInfo) (g : GdnSizes) (n o p_size d_size : ℕ) where
    block_gt-Within :
        (s t : List ℕ) (i : ℕ) (blocks : List IpcBlock)
        → Within v blocks
        → Ensures (Within v) (gdn_block_gt env bounds src g n o p_size d_size s t i blocks)
    unfolding gdn_block_gt gdn_row_gt
    block_gt-Within s t i blocks h = Ensures-bind λ _ _. Ensures-bind λ _ _.
        Ensures-seq {Q = Within v}
          (Ensures-range _ _ _ _
            (λ j bs k.
              Ensures-seq {Q = Placed}
                (Ensures-each _ _ _ (λ c s k. place_gt-Placed _ _ n o _ c s k) k)
                λ _ w. Ensures-bind λ _ _. Ensures-ok w)
            h)
          λ conv w. append-Within v conv _ _ _ w

    block_lt-Within :
        (d : GdnSizes) (s t : List ℕ) (i : ℕ) (blocks : List IpcBlock)
        → Within v blocks
        → Ensures (Within v) (gdn_block_lt env bounds src g d n o p_size d_size s t i blocks)
    unfolding gdn_block_lt gdn_row_lt
    block_lt-Within d s t i blocks h = Ensures-bind λ _ _. Ensures-bind λ _ _.
        Ensures-seq {Q = Within v}
          (Ensures-range _ _ _ _
            (λ j bs k.
              Ensures-seq {Q = Placed}
                (Ensures-each _ _ _ (λ c s k. gdn_place_lt-Placed _ _ n o _ c s k) k)
                λ _ w. Ensures-bind λ _ _. Ensures-bind λ _ _. Ensures-ok w)
            h)
          λ conv w. append-Within v conv _ _ _ w

  gdn_gt-Within :
      (p_size d_size layers n o : ℕ) (src : WorkerInfo) (s t : BlockIds) (blocks : List IpcBlock)
      → Within v blocks
      → Ensures
          (Within v)
          (parse_hybrid_gdn_block_send_p_gt_d env p_size d_size layers n o src s t bounds blocks)
  unfolding parse_hybrid_gdn_block_send_p_gt_d gdn_group_gt
  gdn_gt-Within p_size d_size layers n o src s t blocks h = Ensures-bind λ g _.
      Ensures-range _ _ _ _
        (λ i bs k. Ensures-bind λ s' _. Ensures-bind λ t' _.
          Ensures-range _ _ _ _ (λ j bs k. block_gt-Within src g n o p_size d_size s' t' j bs k) k)
        h

  gdn_lt-Within :
      (p_size d_size layers n o : ℕ) (src : WorkerInfo) (s t : BlockIds) (blocks : List IpcBlock)
      → Within v blocks
      → Ensures
          (Within v)
          (parse_hybrid_gdn_block_send_p_lt_d env p_size d_size layers n o src s t bounds blocks)
  unfolding parse_hybrid_gdn_block_send_p_lt_d gdn_group_lt
  gdn_lt-Within p_size d_size layers n o src s t blocks h = Ensures-bind λ g _. Ensures-bind λ _ _.
      Ensures-bind λ _ _. Ensures-bind λ _ _. Ensures-bind λ _ _. Ensures-bind λ _ _.
        Ensures-bind λ _ _. Ensures-bind λ _ _.
          Ensures-range _ _ _ _
            (λ i bs k. Ensures-bind λ s' _. Ensures-bind λ t' _.
              Ensures-range _ _ _ _
                (λ j bs k. block_lt-Within src g n o p_size d_size _ s' t' j bs k) k)
            h

  ple-Within :
      (p d n layers group : ℕ) (s t : BlockIds) (blocks : List IpcBlock)
      → Within v blocks
      → Ensures (Within v) (for_range layers 0 (copy_ple env bounds p d n group s t) blocks)
  unfolding copy_ple
  ple-Within p d n layers group s t blocks h =
      Ensures-range _ _ _ _ (λ i bs k. copy_group-Within p d n s t _ bs k) h

  short_conv_state-Within :
      (p d layers group : ℕ) (src : WorkerInfo) (s t : BlockIds) (blocks : List IpcBlock)
      → Within v blocks
      → Ensures (Within v) (short_conv_state env p d layers group src s t bounds blocks)
  unfolding short_conv_state
  short_conv_state-Within p d layers group src s t blocks h = Ensures-bind λ _ _.
      Ensures-bind λ _ _.
        Ensures-bind
          λ _ _. Ensures-bind λ _ _. Ensures-bind λ _ _. ple-Within p d _ layers group s t blocks h

  module _ (p d layers group n o : ℕ) (src : WorkerInfo) (s t : BlockIds) (blocks : List IpcBlock)
      (h : Within v blocks) where
    conv_gt-Within :
        Ensures
          (Within v)
          (parse_hybrid_short_conv_block_send_p_gt_d env p d layers group n o src s t bounds blocks)
    unfolding parse_hybrid_short_conv_block_send_p_gt_d short_conv_gt
    conv_gt-Within = Ensures-if _ (Ensures-ok h) (
        Ensures-bind λ _ _. Ensures-bind λ _ _. Ensures-bind λ _ _.
          Ensures-if _ (short_conv_state-Within p d layers group src s t blocks h) (Ensures-ok h))

    conv_lt-Within :
        Ensures
          (Within v)
          (parse_hybrid_short_conv_block_send_p_lt_d env p d layers group n o src s t bounds blocks)
    unfolding parse_hybrid_short_conv_block_send_p_lt_d short_conv_lt
    conv_lt-Within = Ensures-if _ (Ensures-ok h) (
        Ensures-bind λ _ _.
          Ensures-bind
            λ _ _. Ensures-bind λ _ _. short_conv_state-Within p d layers group src s t blocks h)

  module _ (src dst : WorkerInfo) (task : ReqSendTask) where
    pub group-Within :
        (size i ntpb : ℕ) (blocks : List IpcBlock)
        → Within v blocks
        → Ensures (Within v) (aligned_group env size task i ntpb bounds blocks)
    unfolding aligned_group
    group-Within size i ntpb blocks h =
        Ensures-bind λ s _. Ensures-bind λ d _. aligned-Within v env size task s d ntpb blocks h

    pub aligned_indexer-Within :
        (size : ℕ) (blocks : List IpcBlock)
        → Within v blocks
        → Ensures (Within v) (aligned_indexer env src size task bounds blocks)
    unfolding aligned_indexer
    aligned_indexer-Within size blocks h =
        Ensures-if _ (group-Within size _ _ blocks h) (Ensures-ok h)

    indexer_group-Within :
        (g : PageGroup) (blocks : List IpcBlock)
        → Within v blocks
        → Ensures (Within v) (indexer_group env src dst g task bounds blocks)
    unfolding indexer_group
    indexer_group-Within g blocks h =
        Ensures-bind λ s _. Ensures-bind λ d _. indexer-Within v env _ _ _ _ s d _ _ _ blocks h

    pub indexer_gt-Within :
        (g : PageGroup) (blocks : List IpcBlock)
        → Within v blocks
        → Ensures (Within v) (indexer_gt env src dst g task bounds blocks)
    unfolding indexer_gt first_indexer
    indexer_gt-Within g blocks h =
        Ensures-if _
          (Ensures-bind λ _ _. Ensures-if _ (indexer_group-Within g blocks h) (Ensures-ok h))
          (Ensures-ok h)

    pub indexer_lt-Within :
        (g : PageGroup) (blocks : List IpcBlock)
        → Within v blocks
        → Ensures (Within v) (indexer_lt env src dst g task bounds blocks)
    unfolding indexer_lt
    indexer_lt-Within g blocks h = Ensures-if _ (indexer_group-Within g blocks h) (Ensures-ok h)

    pub states_eq-Within :
        (size : ℕ) (blocks : List IpcBlock)
        → Within v blocks
        → Ensures (Within v) (last_states_eq env src size task bounds blocks)
    unfolding last_states_eq states_eq parse_hybrid_short_conv_block_send_p_eq_d
    states_eq-Within size blocks h =
        Ensures-if _
          (Ensures-seq (gdn_eq-Within size _ _ _ blocks h)
            λ gdn w. ple-Within size size size _ _ _ _ gdn w)
          (Ensures-ok h)

    pub states_gt-Within :
        (g : PageGroup) (blocks : List IpcBlock)
        → Within v blocks
        → Ensures (Within v) (last_states_gt env src g task bounds blocks)
    unfolding last_states_gt states_gt
    states_gt-Within g blocks h =
        Ensures-if _
          (Ensures-seq (gdn_gt-Within _ _ _ _ _ src _ _ blocks h)
            λ gdn w. conv_gt-Within _ _ _ _ _ _ src _ _ gdn w)
          (Ensures-ok h)

    pub states_lt-Within :
        (g : PageGroup) (blocks : List IpcBlock)
        → Within v blocks
        → Ensures (Within v) (last_states_lt env src g task bounds blocks)
    unfolding last_states_lt states_lt
    states_lt-Within g blocks h =
        Ensures-if _
          (Ensures-seq (gdn_lt-Within _ _ _ _ _ src _ _ blocks h)
            λ gdn w. conv_lt-Within _ _ _ _ _ _ src _ _ gdn w)
          (Ensures-ok h)
