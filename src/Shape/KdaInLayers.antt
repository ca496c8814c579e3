-- ===== src/Shape/KdaInLayers.antt =====
-- The blocks of every successful run of the generators of kvtransfer/src/parse_block_kda.cpp and
-- parse_block_kimi_k3.cpp lie within the two layers.
use llumnix_kv.Base.{
  ℕ, ◌≡◌, Bool, List, [], ok, All, Ensures, Ensures-ok, Ensures-bind, Ensures-seq, Ensures-if,
  for_range, Ensures-range, Ensures-each, Ensures-while,
}
use llumnix_kv.Env.{Env}
use llumnix_kv.Types.{IpcBlock, WorkerInfo, ReqSendTask}
use llumnix_kv.Bounds.{IpcBlockBounds, make_ipc_block_bounds}
use llumnix_kv.Bounds.Checked.{IsBounds, InBounds}
use llumnix_kv.Parse.{Cursor}
use llumnix_kv.Parse.Safety.{Within, append-Within, zero_fill-Within}
use llumnix_kv.Shape.{SendBlocks, resize}
use llumnix_kv.Shape.Safety.{Safe, cache_step, at_get, resize_keeps}
use llumnix_kv.Shape.Kda.{
  KdaStateLayout, Placing, prepare_kda_parse, place_gt, row_gt, conv_gt, emit_kda_block_p_gt_d,
  place_lt, row_lt, conv_lt, rows_lt, emit_kda_block_p_lt_d,
}
use llumnix_kv.Shape.KdaSend.{
  Emit, emit_block, emit_group, send_pages, parse_kda_block_send_p_eq_d, send_shards_gt,
  parse_kda_block_send_p_gt_d, send_shards_lt, parse_kda_block_send_p_lt_d,
}
use llumnix_kv.Shape.KimiK3.{
  Pages, mla_block, mla_eq, mla_page, mla_step, Tail, tail_step, fill_tail, mla_ne, mla_selected,
  parse_replicated_mla_blocks, parse_kimi_k3_mla_block_send_p_eq_d,
  parse_kimi_k3_mla_block_send_p_gt_d, parse_kimi_k3_mla_block_send_p_lt_d,
}

module _ {bounds : IpcBlockBounds} (v : IsBounds bounds) (env : Env) where
  abbrev Placed : Placing → Type 0
  Placed s = Within v s.blocks

  place_gt-Within :
      (p d n o unit c : ℕ) (s : Placing)
      → Placed s
      → Ensures Placed (place_gt bounds p d n o unit c s)
  unfolding place_gt
  place_gt-Within p d n o unit c s h =
      Ensures-seq (append-Within v s.blocks _ _ _ h) λ _ w. Ensures-ok w

  place_lt-Within :
      (p d n o unit c : ℕ) (s : Placing)
      → Placed s
      → Ensures Placed (place_lt env bounds p d n o unit c s)
  unfolding place_lt
  place_lt-Within p d n o unit c s h = Ensures-bind λ _ _.
      Ensures-bind λ _ _.
        Ensures-bind λ _ _. Ensures-seq (append-Within v s.blocks _ _ _ h) λ _ w. Ensures-ok w

  module _ (src : WorkerInfo) (layout : KdaStateLayout) (n o : ℕ) (p d : ℕ) (blocks : List IpcBlock)
      (h : Within v blocks) where
    emit_gt-Within : Ensures (Within v) (emit_kda_block_p_gt_d env bounds src layout p d n o blocks)
    unfolding emit_kda_block_p_gt_d conv_gt row_gt
    emit_gt-Within =
        Ensures-seq {Q = Within v}
          (Ensures-if src.kda_conv_dim_first
            (Ensures-seq {Q = Placed}
              (Ensures-each _ _ _ (λ c s k. place_gt-Within _ _ n o _ c s k) h)
              λ _ w. Ensures-bind λ _ _. Ensures-ok w)
            (Ensures-range _ _ _ _
              (λ i bs k.
                Ensures-seq {Q = Placed}
                  (Ensures-each _ _ _ (λ c s k. place_gt-Within _ _ n o _ c s k) k)
                  λ _ w. Ensures-bind λ _ _. Ensures-ok w)
              h))
          λ conv w. append-Within v conv _ _ _ w

    conv_lt-Within :
        Ensures
          (λ (r : List IpcBlock × ℕ). Within v r.0)
          (conv_lt env bounds src layout p d n o blocks)
    unfolding conv_lt
    conv_lt-Within =
        Ensures-seq {Q = Placed} (Ensures-each _ _ _ (λ c s k. place_lt-Within _ _ n o _ c s k) h)
          λ _ w. Ensures-bind λ _ _. Ensures-ok w

    rows_lt-Within :
        Ensures
          (λ (r : List IpcBlock × ℕ). Within v r.0)
          (rows_lt env bounds src layout p d n o blocks)
    unfolding rows_lt row_lt
    rows_lt-Within = Ensures-bind λ _ _. Ensures-bind λ _ _.
        Ensures-seq {Q = Within v}
          (Ensures-range _ _ _ _
            (λ i bs k. Ensures-bind λ _ _.
              Ensures-seq {Q = Placed}
                (Ensures-each _ _ _ (λ c s k. place_lt-Within _ _ n o _ c s k) k)
                λ _ w. Ensures-bind λ _ _. Ensures-bind λ _ _. Ensures-ok w)
            h)
          λ _ w. Ensures-bind λ _ _. Ensures-ok w

    emit_lt-Within : Ensures (Within v) (emit_kda_block_p_lt_d env bounds src layout p d n o blocks)
    unfolding emit_kda_block_p_lt_d
    emit_lt-Within = Ensures-bind λ _ _. Ensures-bind λ _ _. Ensures-bind λ _ _.
        Ensures-seq {Q = λ (r : List IpcBlock × ℕ). Within v r.0}
          (Ensures-if src.kda_conv_dim_first conv_lt-Within rows_lt-Within)
          λ conv w. append-Within v conv.0 _ _ _ w

  -- The loops over groups and blocks.
  groups-Within :
      (emit : Emit) (s d : ℕ) (task : ReqSendTask) (n : ℕ) (blocks : List IpcBlock)
      → ((x y : ℕ) (bs : List IpcBlock) → Within v bs → Ensures (Within v) (emit x y bs))
      → Within v blocks
      → Ensures (Within v) (for_range n 0 (emit_group emit s d task) blocks)
  unfolding emit_group emit_block
  groups-Within emit s d task n blocks e h =
      Ensures-range _ _ _ _
        (λ g bs k. Ensures-bind λ _ _. Ensures-bind λ _ _.
          Ensures-range _ _ _ _ (λ b bs' k'. Ensures-bind λ _ _. Ensures-bind λ _ _. e _ _ bs' k')
            k)
        h

  module _ (g : Pages) (task : ReqSendTask) (src_blocks dst_blocks : List ℕ) where
    mla_eq-Within :
        (blocks : List IpcBlock)
        → Within v blocks
        → Ensures (Within v) (mla_eq env g bounds task src_blocks dst_blocks blocks)
    unfolding mla_eq mla_block
    mla_eq-Within blocks h = Ensures-bind λ _ _. Ensures-bind λ _ _. Ensures-bind λ _ _.
        Ensures-bind λ _ _. Ensures-bind λ _ _. Ensures-bind λ _ _.
          Ensures-range _ _ _ _
            (λ i bs k. Ensures-bind λ _ _. Ensures-bind λ _ _. append-Within v bs _ _ _ k) h

    mla_step-Within :
        (c : Cursor)
        → Within v c.blocks
        → Ensures
            (λ (t : Cursor). Within v t.blocks)
            (mla_step env g bounds task src_blocks dst_blocks c)
    unfolding mla_step mla_page
    mla_step-Within c h = Ensures-bind λ _ _. Ensures-bind λ _ _. Ensures-bind λ _ _.
        Ensures-bind λ _ _. Ensures-bind λ _ _. Ensures-bind λ _ _. Ensures-bind λ _ _.
          Ensures-bind λ _ _. Ensures-bind λ _ _.
            Ensures-seq {Q = Within v}
              (Ensures-if _
                (Ensures-bind λ _ _. Ensures-bind λ _ _. append-Within v c.blocks _ _ _ h)
                (Ensures-ok h))
              λ _ w. Ensures-ok w

    fill_tail-Within :
        (total cap : ℕ) (blocks : List IpcBlock)
        → Within v blocks
        → Ensures (Within v) (fill_tail env g bounds src_blocks dst_blocks total cap blocks)
    unfolding fill_tail tail_step
    fill_tail-Within total cap blocks h = Ensures-bind λ _ _. Ensures-bind λ _ _.
        Ensures-seq {Q = λ (s : Tail). Within v s.blocks}
          (Ensures-while _ _ _ _
            (λ s k. Ensures-bind λ _ _. Ensures-bind λ _ _.
              Ensures-bind
                λ _ _. Ensures-seq (zero_fill-Within v env _ _ _ _ s.blocks k) λ _ w. Ensures-ok w)
            h)
          λ _ w. Ensures-ok w

    mla_ne-Within :
        (blocks : List IpcBlock)
        → Within v blocks
        → Ensures (Within v) (mla_ne env g bounds task src_blocks dst_blocks blocks)
    unfolding mla_ne
    mla_ne-Within blocks h =
        Ensures-seq {Q = λ (t : Cursor). Within v t.blocks}
          (Ensures-while _ _ _ _ (λ c k. mla_step-Within c k) h)
          λ c w. Ensures-if _ (Ensures-ok w) (fill_tail-Within _ _ c.blocks w)

module _ (env : Env) (src dst : WorkerInfo) (i : ℕ) (bounds : IpcBlockBounds)
    (made : make_ipc_block_bounds env src dst i ≡ ok bounds) where
  abbrev S : SendBlocks → Type 0
  S = Safe env src dst i bounds made

  resized : (n : ℕ) (sbs : SendBlocks) → S sbs → S (resize n sbs)
  resized n sbs h = resize_keeps (All (InBounds bounds)) n sbs i tt h

  prepare-Safe :
      (task : ReqSendTask) (sbs : SendBlocks)
      → S sbs
      → Ensures S (prepare_kda_parse env src dst task sbs)
  unfolding prepare_kda_parse
  prepare-Safe task sbs h =
      Ensures-bind λ _ _. Ensures-bind λ _ _. Ensures-bind λ _ _. Ensures-ok (resized 1 sbs h)

  module _ (task : ReqSendTask) (sbs : SendBlocks) (h : S sbs) where
    pages-Safe : (x y : ℕ) → Ensures S (send_pages env src dst task x y sbs)
    unfolding send_pages
    pages-Safe x y = Ensures-bind λ bj made'. Ensures-bind λ blocks at0.
        cache_step env src dst i bounds made sbs 0 blocks bj (at_get _ 0 [] blocks at0) made' h _
          (λ v w.
            groups-Within v env _ _ _ task _ blocks (λ _ _ bs k. append-Within v bs _ _ _ k) w)

    shards_gt-Safe : (n o : ℕ) → Ensures S (send_shards_gt env src dst task n o sbs)
    unfolding send_shards_gt
    shards_gt-Safe n o = Ensures-bind λ _ _. Ensures-bind λ _ _. Ensures-bind λ layout _.
        Ensures-bind λ _ _. Ensures-bind λ _ _. Ensures-bind λ bj made'. Ensures-bind λ blocks at0.
          cache_step env src dst i bounds made sbs 0 blocks bj (at_get _ 0 [] blocks at0) made' h _
            (λ v w.
              groups-Within v env _ _ _ task _ blocks
                (λ x y bs k. emit_gt-Within v env src layout n o x y bs k) w)

    shards_lt-Safe : (n o : ℕ) → Ensures S (send_shards_lt env src dst task n o sbs)
    unfolding send_shards_lt
    shards_lt-Safe n o = Ensures-bind λ _ _. Ensures-bind λ _ _. Ensures-bind λ layout _.
        Ensures-bind λ _ _. Ensures-bind λ _ _. Ensures-bind λ _ _. Ensures-bind λ _ _.
          Ensures-bind λ _ _. Ensures-bind λ _ _. Ensures-bind λ bj made'.
            Ensures-bind λ blocks at0.
              cache_step env src dst i bounds made sbs 0 blocks bj (at_get _ 0 [] blocks at0) made'
                h _
                (λ v w.
                  groups-Within v env _ _ _ task _ blocks
                    (λ x y bs k. emit_lt-Within v env src layout n o x y bs k) w)

    mla_selected-Safe : Ensures S (mla_selected env src dst task sbs)
    unfolding mla_selected
    mla_selected-Safe = Ensures-bind λ _ _. Ensures-bind λ _ _. Ensures-bind λ _ _.
        Ensures-bind λ _ _. Ensures-bind λ _ _. Ensures-bind λ _ _. Ensures-bind λ _ _.
          Ensures-bind λ _ _. Ensures-bind λ _ _. Ensures-bind λ _ _. Ensures-bind λ _ _.
            Ensures-bind λ _ _. Ensures-bind λ sb _. Ensures-bind λ db _. Ensures-bind λ _ _.
              Ensures-bind λ _ _. Ensures-bind λ _ _. Ensures-bind λ _ _. Ensures-bind λ _ _.
                Ensures-bind λ _ _. Ensures-bind λ _ _. Ensures-bind λ _ _. Ensures-bind λ _ _.
                  Ensures-bind λ _ _. Ensures-bind λ _ _. Ensures-bind λ _ _. Ensures-bind λ _ _.
                    Ensures-bind λ _ _. Ensures-bind λ _ _. Ensures-bind λ _ _. Ensures-bind λ _ _.
                      Ensures-bind λ _ _. Ensures-bind λ _ _. Ensures-bind λ _ _.
                        Ensures-bind λ blocks at0. Ensures-bind λ bj made'.
                          cache_step env src dst i bounds made _ 0 blocks bj
                            (at_get _ 0 [] blocks at0) made' (resized 1 sbs h) _
                            (λ v w.
                              Ensures-if _ (mla_eq-Within v env _ task sb db blocks w)
                                (mla_ne-Within v env _ task sb db blocks w))

    mla-Safe :
        (valid_ranks : List Bool)
        → Ensures S (parse_replicated_mla_blocks env src dst valid_ranks task sbs)
    unfolding parse_replicated_mla_blocks
    mla-Safe valid_ranks = Ensures-bind λ _ _. Ensures-if _ mla_selected-Safe (Ensures-ok h)

  module _ (valid_ranks : List Bool) (tp rank : ℕ) (task : ReqSendTask) (sbs : SendBlocks)
      (h : S sbs) where
    kda_eq-Safe : Ensures S (parse_kda_block_send_p_eq_d env src dst valid_ranks tp rank task sbs)
    unfolding parse_kda_block_send_p_eq_d
    kda_eq-Safe = Ensures-seq (prepare-Safe task sbs h) λ prepared k. Ensures-bind λ _ _.
        Ensures-bind λ _ _. Ensures-bind λ _ _.
          Ensures-bind
            λ _ _. Ensures-bind λ _ _. Ensures-if _ (Ensures-ok k) (pages-Safe task prepared k _ _)

    kda_gt-Safe : Ensures S (parse_kda_block_send_p_gt_d env src dst valid_ranks tp rank task sbs)
    unfolding parse_kda_block_send_p_gt_d
    kda_gt-Safe = Ensures-seq (prepare-Safe task sbs h) λ prepared k. Ensures-bind λ _ _.
        Ensures-bind λ _ _. Ensures-bind λ _ _. Ensures-bind λ _ _. Ensures-bind λ _ _.
          Ensures-bind λ _ _.
            Ensures-bind λ _ _. Ensures-if _ (Ensures-ok k) (shards_gt-Safe task prepared k _ _)

    kda_lt-Safe : Ensures S (parse_kda_block_send_p_lt_d env src dst valid_ranks tp rank task sbs)
    unfolding parse_kda_block_send_p_lt_d
    kda_lt-Safe = Ensures-seq (prepare-Safe task sbs h) λ prepared k. Ensures-bind λ _ _.
        Ensures-bind λ _ _. Ensures-bind λ _ _. Ensures-bind λ _ _. Ensures-bind λ _ _.
          Ensures-bind λ _ _.
            Ensures-bind λ _ _. Ensures-if _ (Ensures-ok k) (shards_lt-Safe task prepared k _ _)

  module _ (valid_ranks : List Bool) (tp rank : ℕ) (task : ReqSendTask) (sbs : SendBlocks)
      (h : S sbs) where
    pub kimi_eq-Safe :
        Ensures S (parse_kimi_k3_mla_block_send_p_eq_d env src dst valid_ranks tp rank task sbs)
    unfolding parse_kimi_k3_mla_block_send_p_eq_d
    kimi_eq-Safe = Ensures-bind λ _ _. Ensures-bind λ _ _.
        Ensures-seq (mla-Safe task sbs h valid_ranks)
          λ sent k. kda_eq-Safe valid_ranks tp rank task sent k

    pub kimi_gt-Safe :
        Ensures S (parse_kimi_k3_mla_block_send_p_gt_d env src dst valid_ranks tp rank task sbs)
    unfolding parse_kimi_k3_mla_block_send_p_gt_d
    kimi_gt-Safe = Ensures-bind λ _ _.
        Ensures-seq (mla-Safe task sbs h valid_ranks)
          λ sent k. kda_gt-Safe valid_ranks tp rank task sent k

    pub kimi_lt-Safe :
        Ensures S (parse_kimi_k3_mla_block_send_p_lt_d env src dst valid_ranks tp rank task sbs)
    unfolding parse_kimi_k3_mla_block_send_p_lt_d
    kimi_lt-Safe = Ensures-bind λ _ _.
        Ensures-seq (mla-Safe task sbs h valid_ranks)
          λ sent k. kda_lt-Safe valid_ranks tp rank task sent k
