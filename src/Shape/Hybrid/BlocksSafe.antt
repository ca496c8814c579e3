-- ===== src/Shape/Hybrid/BlocksSafe.antt =====
-- The loops of kvtransfer/src/parse_block_qwen3_next.cpp over tokens and blocks leave blocks within the
-- two layers.
use llumnix_kv.Base.{
  ℕ, Bool, List, Ensures, Ensures-ok, Ensures-bind, Ensures-seq, Ensures-if, Ensures-while,
  Ensures-range,
}
use llumnix_kv.Env.{Env}
use llumnix_kv.Types.{IpcBlock, ReqSendTask}
use llumnix_kv.Bounds.{IpcBlockBounds}
use llumnix_kv.Bounds.Checked.{IsBounds}
use llumnix_kv.Parse.{Cursor}
use llumnix_kv.Parse.Safety.{Within, append-Within, zero_fill-Within}
use llumnix_kv.Shape.Hybrid.Aligned.{
  whole_block, aligned_step, send_trailing, do_parse_block_aligned_send, indexer_step,
  parse_hybrid_indexer_block,
}
use llumnix_kv.Shape.Hybrid.Attn.{
  AttnSizes, Spot, attn_token, attn_sub, attn_step, parse_hybrid_attn_block,
}
use llumnix_kv.Shape.Hybrid.AttnFill.{
  LastFill, zero_pair, zero_token, zero_sub, fill_last_step, fill_last_tokens, fill_last_some,
  fill_last_hybrid_attn_block, TailSizes, tail_sub, Position, tail_lt_step, fill_tail_lt_tokens,
  fill_tail_hybrid_attn_block_p_lt_d,
}

module _ {bounds : IpcBlockBounds} (v : IsBounds bounds) (env : Env) where
  abbrev Here : Cursor → Type 0
  Here c = Within v c.blocks

  aligned_step-Here :
      (size : ℕ) (task : ReqSendTask) (s d : List ℕ) (ntpb : ℕ) (c : Cursor)
      → Here c
      → Ensures Here (aligned_step env size task s d ntpb bounds c)
  unfolding aligned_step
  aligned_step-Here size task s d ntpb c h = Ensures-bind λ _ _. Ensures-bind λ _ _.
      Ensures-bind λ _ _. Ensures-bind λ _ _. Ensures-bind λ _ _. Ensures-bind λ _ _.
        Ensures-seq {Q = Within v} (Ensures-if _ (append-Within v c.blocks _ _ _ h) (Ensures-ok h))
          λ _ w. Ensures-ok w

  trailing-Within :
      (size : ℕ) (s d : List ℕ) (ntpb : ℕ) (c : Cursor)
      → Here c
      → Ensures (Within v) (send_trailing env size s d ntpb bounds c)
  unfolding send_trailing whole_block
  trailing-Within size s d ntpb c h = Ensures-bind λ _ _. Ensures-bind λ _ _.
      Ensures-range _ _ _ _
        (λ i bs k. Ensures-bind λ _ _. Ensures-bind λ _ _. append-Within v bs _ _ _ k) h

  pub aligned-Within :
      (size : ℕ) (task : ReqSendTask) (s d : List ℕ) (ntpb : ℕ) (blocks : List IpcBlock)
      → Within v blocks
      → Ensures (Within v) (do_parse_block_aligned_send env size task s d ntpb bounds blocks)
  unfolding do_parse_block_aligned_send
  aligned-Within size task s d ntpb blocks h =
      Ensures-seq {Q = Here}
        (Ensures-while _ _ _ _ (λ c k. aligned_step-Here size task s d ntpb c k) h)
        λ c w. Ensures-if _ (trailing-Within size s d ntpb c w) (Ensures-ok w)

  pub indexer-Within :
      (p_size d_size wrote left : ℕ) (s d : List ℕ) (p_ntpb d_ntpb token_size : ℕ)
      (blocks : List IpcBlock)
      → Within v blocks
      → Ensures (Within v) (
          parse_hybrid_indexer_block env p_size d_size wrote left s d p_ntpb d_ntpb token_size
            bounds blocks)
  unfolding parse_hybrid_indexer_block indexer_step
  indexer-Within p_size d_size wrote left s d p_ntpb d_ntpb token_size blocks h =
      Ensures-bind λ _ _.
        Ensures-seq {Q = Here}
          (Ensures-while _ _ _ _
            (λ c k. Ensures-bind λ _ _. Ensures-bind λ _ _. Ensures-bind λ _ _. Ensures-bind λ _ _.
              Ensures-bind λ _ _. Ensures-bind λ _ _. Ensures-bind λ _ _.
                Ensures-bind
                  λ _ _. Ensures-seq (append-Within v c.blocks _ _ _ k) λ _ w. Ensures-ok w)
            h)
          λ _ w. Ensures-ok w

  attn_token-Within :
      (g : AttnSizes) (swap : Bool) (off : ℕ) (p d : Spot) (p_off d_off idx : ℕ)
      (blocks : List IpcBlock)
      → Within v blocks
      → Ensures (Within v) (attn_token g bounds swap off (p, d) p_off d_off idx blocks)
  unfolding attn_token
  attn_token-Within g swap off p d p_off d_off idx blocks h =
      Ensures-seq (append-Within v blocks _ _ _ h) λ ks w. append-Within v ks _ _ _ w

  attn_sub-Within :
      (g : AttnSizes) (swap : Bool) (off : ℕ) (p d : Spot) (p_off d_off taken sub : ℕ)
      (blocks : List IpcBlock)
      → Within v blocks
      → Ensures (Within v) (attn_sub g bounds swap off (p, d) p_off d_off taken sub blocks)
  unfolding attn_sub
  attn_sub-Within g swap off p d p_off d_off taken sub blocks h =
      Ensures-range _ _ _ _ (λ i bs k. attn_token-Within g swap off p d _ _ i bs k) h

  pub attn-Within :
      (g : AttnSizes) (s d : List ℕ) (wrote left off : ℕ) (swap : Bool) (blocks : List IpcBlock)
      → Within v blocks
      → Ensures (Within v) (parse_hybrid_attn_block env g s d wrote left off bounds swap blocks)
  unfolding parse_hybrid_attn_block attn_step
  attn-Within g s d wrote left off swap blocks h =
      Ensures-seq {Q = Here}
        (Ensures-while _ _ _ _
          (λ c k. Ensures-bind λ spots _. Ensures-bind λ _ _. Ensures-bind λ _ _.
            Ensures-bind λ _ _. Ensures-bind λ _ _. Ensures-bind λ _ _. Ensures-bind λ _ _.
              Ensures-seq {Q = Within v}
                (Ensures-range _ _ _ _
                  (λ i bs m. attn_sub-Within g swap off spots.0 spots.1 _ _ _ i bs m) k)
                λ _ w. Ensures-ok w)
          h)
        λ _ w. Ensures-ok w

  pub zero_pair-Within :
      (z size dk length seg : ℕ) (blocks : List IpcBlock)
      → Within v blocks
      → Ensures (Within v) (zero_pair env z size dk length seg bounds blocks)
  unfolding zero_pair
  zero_pair-Within z size dk length seg blocks h =
      Ensures-seq (zero_fill-Within v env _ _ _ _ blocks h)
        λ ks w. zero_fill-Within v env _ _ _ _ ks w

  zero_sub-Within :
      (g : AttnSizes) (z off d_off : ℕ) (d : Spot) (taken sub : ℕ) (blocks : List IpcBlock)
      → Within v blocks
      → Ensures (Within v) (zero_sub env g bounds z off d_off d taken sub blocks)
  unfolding zero_sub zero_token
  zero_sub-Within g z off d_off d taken sub blocks h =
      Ensures-range _ _ _ _ (λ i bs k. zero_pair-Within _ _ _ _ _ bs k) h

  fill_last_step-Within :
      (g : AttnSizes) (per_src per_dst z off : ℕ) (d : List ℕ) (f : LastFill)
      → Within v f.blocks
      → Ensures
          (λ (t : LastFill). Within v t.blocks)
          (fill_last_step env g per_src per_dst bounds z off d f)
  unfolding fill_last_step
  fill_last_step-Within g per_src per_dst z off d f h = Ensures-bind λ _ _. Ensures-bind λ _ _.
      Ensures-bind λ spot _. Ensures-bind λ _ _. Ensures-bind λ _ _. Ensures-bind λ _ _.
        Ensures-seq {Q = Within v}
          (Ensures-range _ _ _ _ (λ i bs k. zero_sub-Within g _ _ _ spot _ i bs k) h)
          λ _ w. Ensures-ok w

  fill_last_tokens-Within :
      (g : AttnSizes) (per_src per_dst : ℕ) (s d : List ℕ) (total filled off : ℕ)
      (blocks : List IpcBlock)
      → Within v blocks
      → Ensures
          (Within v)
          (fill_last_tokens env g per_src per_dst s d total filled off bounds blocks)
  unfolding fill_last_tokens
  fill_last_tokens-Within g per_src per_dst s d total filled off blocks h = Ensures-bind λ _ _.
      Ensures-bind λ _ _. Ensures-bind λ _ _.
        Ensures-seq {Q = λ (t : LastFill). Within v t.blocks}
          (Ensures-while _ _ _ _ (λ f k. fill_last_step-Within g per_src per_dst _ off d f k) h)
          λ _ w. Ensures-ok w

  fill_last_some-Within :
      (g : AttnSizes) (s d : List ℕ) (total off : ℕ) (blocks : List IpcBlock)
      → Within v blocks
      → Ensures (Within v) (fill_last_some env g s d total off bounds blocks)
  unfolding fill_last_some
  fill_last_some-Within g s d total off blocks h = Ensures-bind λ _ _. Ensures-bind λ _ _.
      Ensures-bind λ _ _. Ensures-bind λ _ _.
        Ensures-bind λ _ _.
          Ensures-if _ (Ensures-ok h) (fill_last_tokens-Within g _ _ s d total _ off blocks h)

  pub fill_last-Within :
      (g : AttnSizes) (s d : List ℕ) (total off : ℕ) (blocks : List IpcBlock)
      → Within v blocks
      → Ensures (Within v) (fill_last_hybrid_attn_block env g s d total off bounds blocks)
  unfolding fill_last_hybrid_attn_block
  fill_last-Within g s d total off blocks h =
      Ensures-if _ (Ensures-ok h) (fill_last_some-Within g s d total off blocks h)

  tail_lt_step-Within :
      (g : TailSizes) (z : ℕ) (d : List ℕ) (s : Position)
      → Within v s.blocks
      → Ensures (λ (t : Position). Within v t.blocks) (tail_lt_step env g bounds z d s)
  unfolding tail_lt_step tail_sub
  tail_lt_step-Within g z d s h = Ensures-bind λ _ _. Ensures-bind λ _ _. Ensures-bind λ _ _.
      Ensures-bind λ _ _. Ensures-bind λ _ _. Ensures-bind λ _ _.
        Ensures-seq {Q = Within v}
          (Ensures-range _ _ _ _ (λ i bs k. zero_pair-Within _ _ _ _ _ bs k) h) λ _ w. Ensures-ok w

  pub fill_tail_lt-Within :
      (p_size d_size d_token ntpb kernel pack : ℕ) (s d : List ℕ) (total : ℕ)
      (blocks : List IpcBlock)
      → Within v blocks
      → Ensures (Within v) (
          fill_tail_hybrid_attn_block_p_lt_d env p_size d_size d_token ntpb kernel pack s d total
            bounds blocks)
  unfolding fill_tail_hybrid_attn_block_p_lt_d fill_tail_lt_tokens
  fill_tail_lt-Within p_size d_size d_token ntpb kernel pack s d total blocks h =
      Ensures-bind λ _ _. Ensures-bind λ _ _. Ensures-bind λ _ _. Ensures-bind λ _ _.
        Ensures-bind λ _ _. Ensures-if _ (Ensures-ok h) (
          Ensures-bind λ _ _.
            Ensures-seq {Q = λ (t : Position). Within v t.blocks}
              (Ensures-while _ _ _ _ (λ s k. tail_lt_step-Within _ _ d s k) h) λ _ w. Ensures-ok w)
