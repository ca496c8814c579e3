-- ===== src/Parse/Eq.antt =====
-- `do_parse_block_send_p_eq_d` (kvtransfer/src/parse_block_common.cpp) as a whole.
use native.Mathlib.Nat.{mul-div_left}
use llumnix_kv.Base.{
  ◌>>=◌, ℕ, ◌+◌, ◌*◌, ◌/◌, ◌^◌, ◌<◌, ◌≡◌, refl, ◌∙◌, ap, sym, List, ◌++◌, ok, assert_ok, index,
  div_ok, All, u32_lem, u64, ==_iff, arith,
}
use llumnix_kv.Env.{Env}
use llumnix_kv.Types.{IpcBlock, ReqSendTask}
use llumnix_kv.Copies.{bytes, tokens, paged}
use llumnix_kv.Bounds.{IpcBlockBounds}
use llumnix_kv.Bounds.Checked.{InBounds}
use llumnix_kv.Parse.{do_parse_block_send_p_eq_d}
use llumnix_kv.Parse.EqLoop.{Fitting, Roomy, loop_total}

module _ (env : Env) (block_size token_size ntpb : ℕ) (bounds : IpcBlockBounds) (task : ReqSendTask)
    (blocks : List IpcBlock) (src dst : List ℕ) where
  -- The blocks lie within any part `room` of the layers that the paged blocks lie within.
  pub p_eq_d_within :
      (room : IpcBlockBounds)
      → index task.req.src_blocks 0 ≡ ok src
      → index task.req.dst_blocks 0 ≡ ok dst
      → ntpb < 2 ^ 32
      → block_size < 2 ^ 64
      → Roomy env block_size token_size ntpb src dst bounds room
      → Fitting env block_size token_size ntpb src dst bounds (task.seen_tokens + task.new_tokens)
      → (new : List IpcBlock) × (do_parse_block_send_p_eq_d env block_size token_size task bounds
            blocks
          ≡ ok (blocks ++ new))
        × (bytes new
            ≡ tokens
                (paged src ntpb block_size token_size 0)
                (paged dst ntpb block_size token_size 0)
                token_size
                task.seen_tokens
                task.new_tokens)
        × All (InBounds room) new
  unfolding do_parse_block_send_p_eq_d ◌>>=◌
  p_eq_d_within room hs hd small word r v =
      let (t, new, e, a, b, w) =
        loop_total env block_size token_size ntpb src dst bounds room
          (record {
            wrote_tokens = task.seen_tokens;
            left_tokens = task.new_tokens;
            blocks = blocks;
          })
          r v in
      (
        new,
        rw
            (
              div_ok block_size token_size v.some_token,
              quotient,
              u32_lem small,
              assert_ok env.asserts _ ((==_iff _ _).1 checked),
              hs,
              hd,
              div_ok task.new_tokens ntpb v.some_tokens,
              e,
              a,
            )
            refl,
        b,
        w,
      )
    where
      quotient : block_size / token_size ≡ ntpb
      quotient = ap (λ n. n / token_size) (sym v.whole) ∙ mul-div_left ntpb v.some_token

      checked : u64 (ntpb * token_size) ≡ block_size
      checked = omega (arith, v.whole)

  -- Where the block lists of the task are there, blocks of `ntpb` tokens lie whole within both
  -- layers, the lists cover the tokens and no counter or size wraps (`Fitting`),
  -- `do_parse_block_send_p_eq_d` returns: it keeps the blocks that were there, and what it appends
  -- copies exactly the bytes of the new tokens, in order, each from its place in the paged source
  -- to its place in the paged destination.
  pub p_eq_d_total :
      index task.req.src_blocks 0 ≡ ok src
      → index task.req.dst_blocks 0 ≡ ok dst
      → ntpb < 2 ^ 32
      → block_size < 2 ^ 64
      → Fitting env block_size token_size ntpb src dst bounds (task.seen_tokens + task.new_tokens)
      → (new : List IpcBlock) × (do_parse_block_send_p_eq_d env block_size token_size task bounds
            blocks
          ≡ ok (blocks ++ new))
        × (bytes new
            ≡ tokens
                (paged src ntpb block_size token_size 0)
                (paged dst ntpb block_size token_size 0)
                token_size
                task.seen_tokens
                task.new_tokens)
  p_eq_d_total hs hd small word v =
      let (new, e, b, _) =
        p_eq_d_within bounds hs hd small word
          (record { unit = v.unscaled; src_in = v.src_fits; dst_in = v.dst_fits }) v in
      (new, e, b)
