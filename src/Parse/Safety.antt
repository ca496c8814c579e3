-- ===== src/Parse/Safety.antt =====
-- Whatever the shared generators emit lies within the two layers: no successful run leaves a block
-- that reads or writes beyond them.
use llumnix_kv.Base.{
  ℕ, Bool, List, All, Ensures, Ensures-ok, Ensures-bind, Ensures-seq, Ensures-while, Ensures-range,
}
use llumnix_kv.Env.{Env}
use llumnix_kv.Types.{IpcBlock, ReqSendTask}
use llumnix_kv.Bounds.{IpcBlockBounds, append_ipc_block_checked}
use llumnix_kv.Bounds.Checked.{IsBounds, InBounds, InBounds-append}
use llumnix_kv.Parse.{
  Cursor, Filling, p_eq_d_step, do_parse_block_send_p_eq_d, gt_token, gt_step, parse_block_send_gt,
  zero_fill_step, emit_zero_fill_segments,
}

module _ {bounds : IpcBlockBounds} (v : IsBounds bounds) where
  abbrev pub Within : List IpcBlock → Type 0
  Within = All (InBounds bounds)

  pub append-Within :
      (blocks : List IpcBlock) (s d l : ℕ)
      → Within blocks
      → Ensures Within (append_ipc_block_checked blocks bounds s d l)
  append-Within blocks s d l h = record {
    holds = λ out e. InBounds-append blocks bounds s d l v e h;
  }

  p_eq_d_step-Within :
      (env : Env) (block_size token_size ntpb : ℕ) (src dst : List ℕ) (c : Cursor)
      → Within c.blocks
      → Ensures
          (λ (t : Cursor). Within t.blocks)
          (p_eq_d_step env block_size token_size ntpb src dst bounds c)
  unfolding p_eq_d_step
  p_eq_d_step-Within env block_size token_size ntpb src dst c h = Ensures-bind λ _ _.
      Ensures-bind λ _ _. Ensures-bind λ _ _. Ensures-bind λ _ _. Ensures-bind λ _ _.
        Ensures-bind λ _ _. Ensures-bind λ _ _.
          Ensures-bind λ _ _. Ensures-seq (append-Within c.blocks _ _ _ h) λ _ w. Ensures-ok w

  pub p_eq_d-Within :
      (env : Env) (block_size token_size : ℕ) (task : ReqSendTask) (blocks : List IpcBlock)
      → Within blocks
      → Ensures Within (do_parse_block_send_p_eq_d env block_size token_size task bounds blocks)
  unfolding do_parse_block_send_p_eq_d
  p_eq_d-Within env block_size token_size task blocks h = Ensures-bind λ _ _. Ensures-bind λ _ _.
      Ensures-bind λ _ _. Ensures-bind λ _ _. Ensures-bind λ _ _.
        Ensures-seq {Q = λ (t : Cursor). Within t.blocks}
          (Ensures-while _ _ _ _ (λ c k. p_eq_d_step-Within env block_size token_size _ _ _ c k) h)
          λ _ w. Ensures-ok w

  gt_token-Within :
      (p_token_size k_size d_token_size group_off p_off d_off base : ℕ) (swap : Bool) (i : ℕ)
      (blocks : List IpcBlock)
      → Within blocks
      → Ensures Within (
          gt_token p_token_size k_size d_token_size group_off p_off d_off base bounds swap i blocks)
  unfolding gt_token
  gt_token-Within p_token_size k_size d_token_size group_off p_off d_off base swap i blocks h =
      append-Within blocks _ _ _ h

  gt_step-Within :
      (env : Env) (p_token_size k_size d_token_size ntpb group_off p_size d_size : ℕ)
      (p_blocks d_blocks : List ℕ) (swap : Bool) (c : Cursor)
      → Within c.blocks
      → Ensures
          (λ (t : Cursor). Within t.blocks)
          (gt_step env p_token_size k_size d_token_size ntpb group_off p_size d_size p_blocks
            d_blocks bounds swap c)
  unfolding gt_step
  gt_step-Within env p_token_size k_size d_token_size ntpb group_off p_size d_size p_blocks d_blocks
        swap c h =
      Ensures-bind λ _ _. Ensures-bind λ _ _. Ensures-bind λ _ _. Ensures-bind λ _ _.
        Ensures-bind λ _ _.
          Ensures-seq {Q = Within}
            (Ensures-range _ _ _ _
              (λ i blocks k.
                gt_token-Within p_token_size k_size d_token_size group_off _ _ _ swap i blocks k)
              h)
            λ _ w. Ensures-ok w

  pub gt-Within :
      (env : Env) (p_token_size k_size d_token_size ntpb group_off : ℕ) (p_blocks d_blocks : List ℕ)
      (wrote left : ℕ) (swap : Bool) (blocks : List IpcBlock)
      → Within blocks
      → Ensures Within (
          parse_block_send_gt env p_token_size k_size d_token_size ntpb group_off p_blocks d_blocks
            wrote left bounds swap blocks)
  unfolding parse_block_send_gt
  gt-Within env p_token_size k_size d_token_size ntpb group_off p_blocks d_blocks wrote left swap
        blocks h =
      Ensures-bind λ _ _.
        Ensures-seq {Q = λ (t : Cursor). Within t.blocks}
          (Ensures-while _ _ _ _ (λ c k. gt_step-Within env _ _ _ _ _ _ _ _ _ swap c k) h)
          λ _ w. Ensures-ok w

  pub zero_fill-Within :
      (env : Env) (zero_src_off dst_off length max_seg : ℕ) (blocks : List IpcBlock)
      → Within blocks
      → Ensures Within
          (emit_zero_fill_segments env zero_src_off dst_off length max_seg bounds blocks)
  unfolding emit_zero_fill_segments zero_fill_step
  zero_fill-Within env zero_src_off dst_off length max_seg blocks h = Ensures-bind λ _ _.
      Ensures-seq {Q = λ (f : Filling). Within f.blocks}
        (Ensures-while _ _ _ _
          (λ f k. Ensures-seq (append-Within f.blocks _ _ _ k) λ _ w. Ensures-ok w) h)
        λ _ w. Ensures-ok w
