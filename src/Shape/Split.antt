-- ===== src/Shape/Split.antt =====
-- kvtransfer/src/parse_block_ragged.cpp between a side with more ranks and one with fewer: the K
-- and V of each new token, to or from their place among the group.

use llumnix_kv.Base.{
  ◌>>=◌, ℕ, ◌+◌, ◌*◌, ◌%◌, ◌≡◌, Bool, true, false, List, [], ◌∷◌, ◌++◌, map, ok, index,
}
use llumnix_kv.Env.{Env}
use llumnix_kv.Types.{IpcBlock, WorkerInfo, ReqSendTask}
use llumnix_kv.Bounds.{IpcBlockBounds, make_ipc_block_bounds}
use llumnix_kv.Shape.{SendBlocks, resize}
use llumnix_kv.Shape.Stream.{shift}
use llumnix_kv.Shape.Paired.{Paired}
use llumnix_kv.Shape.Ragged.{parse_block_send_p_gt_d, parse_block_send_p_lt_d}
use llumnix_kv.Shape.SplitBlocks.{Grouping, k_blocks, internal_total}

-- `parse_block_send_p_gt_d` and `parse_block_send_p_lt_d` with a single block group.
module _ {p d : WorkerInfo} {k group_n ntpb : ℕ} (env : Env) (valid_ranks : List Bool) (tp rank : ℕ)
    (task : ReqSendTask) (src dst : List ℕ) (bounds : IpcBlockBounds) (send_blocks : SendBlocks)
    (blocks : List IpcBlock) where
  -- P > D, without the cast to fp8. Where the ranks of D hold the heads of `group_n` ranks of P
  -- each (`Grouping`) and whole blocks lie within the layers (`Paired`), `parse_block_send_p_gt_d`
  -- returns, and what it adds is the K block of each new token, to its place in the group of P
  -- ranks, followed by the V block of each of them, half a token further on at either end.
  pub p_gt_d_total :
      Grouping p d tp d.engine_tp_size k group_n ntpb
      → index task.req.src_blocks 0 ≡ ok src
      → index task.req.dst_blocks 0 ≡ ok dst
      → make_ipc_block_bounds env p d 0 ≡ ok bounds
      → Paired k group_n ntpb
          (p.worker_tp_rank % group_n)
          src
          dst
          bounds
          false
          (task.seen_tokens + task.new_tokens)
      → env.bf162fp8_conversion ≡ false
      → resize 1 send_blocks ≡ blocks ∷ []
      → parse_block_send_p_gt_d env p d valid_ranks tp rank task send_blocks
        ≡ ok (
            (blocks
              ++ (k_blocks env k group_n ntpb
                    (p.worker_tp_rank % group_n)
                    src
                    dst
                    task.seen_tokens
                    task.new_tokens
                    bounds
                    false
                  ++ map (shift k (k * group_n) k) (
                      k_blocks env k group_n ntpb
                        (p.worker_tp_rank % group_n)
                        src
                        dst
                        task.seen_tokens
                        task.new_tokens
                        bounds
                        false)))
            ∷ [])
  unfolding parse_block_send_p_gt_d ◌>>=◌
  p_gt_d_total g hs hd hb v plain one =
      rw (hb, hs, hd) (internal_total g env src dst _ _ bounds false v plain send_blocks blocks one)

  -- P < D, without the cast to fp8. Under the same conditions with the sides swapped,
  -- `parse_block_send_p_lt_d` returns, and what it adds is the K block of each new token, from its
  -- place in the row of P to the rank of D, followed by the V block of each of them, half a token
  -- further on at either end.
  pub p_lt_d_total :
      Grouping d p d.engine_tp_size tp k group_n ntpb
      → index task.req.src_blocks 0 ≡ ok src
      → index task.req.dst_blocks 0 ≡ ok dst
      → make_ipc_block_bounds env p d 0 ≡ ok bounds
      → Paired k group_n ntpb
          (d.worker_tp_rank % group_n)
          dst
          src
          bounds
          true
          (task.seen_tokens + task.new_tokens)
      → env.bf162fp8_conversion ≡ false
      → resize 1 send_blocks ≡ blocks ∷ []
      → parse_block_send_p_lt_d env p d valid_ranks tp rank task send_blocks
        ≡ ok (
            (blocks
              ++ (k_blocks env k group_n ntpb
                    (d.worker_tp_rank % group_n)
                    dst
                    src
                    task.seen_tokens
                    task.new_tokens
                    bounds
                    true
                  ++ map (shift (k * group_n) k k) (
                      k_blocks env k group_n ntpb
                        (d.worker_tp_rank % group_n)
                        dst
                        src
                        task.seen_tokens
                        task.new_tokens
                        bounds
                        true)))
            ∷ [])
  unfolding parse_block_send_p_lt_d ◌>>=◌
  p_lt_d_total g hs hd hb v plain one =
      rw (hb, hs, hd) (internal_total g env dst src _ _ bounds true v plain send_blocks blocks one)
