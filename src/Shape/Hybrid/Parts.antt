-- ===== src/Shape/Hybrid/Parts.antt =====
-- kvtransfer/src/parse_block_qwen3_next.cpp: the parts that the functions of the hybrid shapes have in
-- common, with or without FlashInfer.
use llumnix_kv.Base.{
  ℕ, ◌+◌, ◌*◌, Bool, ◌&&◌, ◌||◌, List, length, u32, ltb, ◌==◌, if◌then◌else◌, Result, ok, ◌>>=◌,
  ◌>>◌, assert, at, div, mod_by,
}
use llumnix_kv.Env.{Env}
use llumnix_kv.Types.{IpcBlock, WorkerInfo, ReqSendTask}
use llumnix_kv.Bounds.{IpcBlockBounds}
use llumnix_kv.Shape.Hybrid.Aligned.{do_parse_block_aligned_send, parse_hybrid_indexer_block}
use llumnix_kv.Shape.Hybrid.Gdn.{
  parse_hybrid_gdn_block_send_p_eq_d, parse_hybrid_gdn_block_send_p_gt_d,
}
use llumnix_kv.Shape.Hybrid.GdnLt.{parse_hybrid_gdn_block_send_p_lt_d}
use llumnix_kv.Shape.Hybrid.ShortConv.{
  parse_hybrid_short_conv_block_send_p_eq_d, parse_hybrid_short_conv_block_send_p_gt_d,
  parse_hybrid_short_conv_block_send_p_lt_d,
}

-- The sizes of the pages of the two sides, and the group of ranks by the engines' sizes.
pub record PageGroup : Type 0 where
  pub p_block_size : ℕ
  pub d_block_size : ℕ
  pub group_n : ℕ
  pub group_off : ℕ

-- Where the attention group of a request is.
abbrev pub attn_group_of : WorkerInfo → ℕ
attn_group_of src =
    if ltb 0 src.indexer_blk_ntpb then src.num_gdn_layers + 1 else src.num_gdn_layers

abbrev pub attn_group_gt : WorkerInfo → WorkerInfo → ℕ
attn_group_gt src dst =
    if ltb 0 src.indexer_blk_ntpb && ltb 0 dst.indexer_blk_ntpb
    then src.num_gdn_layers + 1
    else src.num_gdn_layers

-- Both workers have an indexer, or none has.
abbrev pub same_indexer : WorkerInfo → WorkerInfo → Bool
same_indexer src dst =
    (src.indexer_blk_ntpb == 0 && dst.indexer_blk_ntpb == 0)
    || (ltb 0 src.indexer_blk_ntpb && ltb 0 dst.indexer_blk_ntpb)

-- The whole blocks of group `group_idx`.
unfoldable pub aligned_group :
    Env → ℕ → ReqSendTask → ℕ → ℕ → IpcBlockBounds → List IpcBlock → Result (List IpcBlock)
aligned_group env block_size task group_idx ntpb bounds blocks = do
  s ← at task.req.src_blocks group_idx
  d ← at task.req.dst_blocks group_idx
  do_parse_block_aligned_send env block_size task s d ntpb bounds blocks

-- The indexer, in whole blocks, if there is one.
unfoldable pub aligned_indexer :
    Env → WorkerInfo → ℕ → ReqSendTask → IpcBlockBounds → List IpcBlock → Result (List IpcBlock)
aligned_indexer env src block_size task bounds blocks =
    if ltb 0 src.indexer_blk_ntpb
    then aligned_group env block_size task src.num_gdn_layers src.indexer_blk_ntpb bounds blocks
    else ok blocks

-- The indexer, token by token.
unfoldable pub indexer_group :
    Env
    → WorkerInfo
    → WorkerInfo
    → PageGroup
    → ReqSendTask
    → IpcBlockBounds
    → List IpcBlock
    → Result (List IpcBlock)
indexer_group env src dst g task bounds blocks = do
  s ← at task.req.src_blocks src.num_gdn_layers
  d ← at task.req.dst_blocks src.num_gdn_layers
  parse_hybrid_indexer_block env g.p_block_size g.d_block_size task.seen_tokens task.new_tokens s d
      src.indexer_blk_ntpb dst.indexer_blk_ntpb src.hybrid_indexer_token_size bounds blocks

-- Where P has more ranks, the first of each group sends it.
unfoldable pub first_indexer :
    Env
    → WorkerInfo
    → WorkerInfo
    → PageGroup
    → ReqSendTask
    → IpcBlockBounds
    → List IpcBlock
    → Result (List IpcBlock)
first_indexer env src dst g task bounds blocks = do
  rest ← mod_by src.worker_tp_rank g.group_n
  if rest == 0 then indexer_group env src dst g task bounds blocks else ok blocks

unfoldable pub indexer_gt :
    Env
    → WorkerInfo
    → WorkerInfo
    → PageGroup
    → ReqSendTask
    → IpcBlockBounds
    → List IpcBlock
    → Result (List IpcBlock)
indexer_gt env src dst g task bounds blocks =
    if ltb 0 src.indexer_blk_ntpb && ltb 0 dst.indexer_blk_ntpb
    then first_indexer env src dst g task bounds blocks
    else ok blocks

unfoldable pub indexer_lt :
    Env
    → WorkerInfo
    → WorkerInfo
    → PageGroup
    → ReqSendTask
    → IpcBlockBounds
    → List IpcBlock
    → Result (List IpcBlock)
indexer_lt env src dst g task bounds blocks =
    if ltb 0 src.indexer_blk_ntpb then indexer_group env src dst g task bounds blocks else ok blocks

-- The states, once the request is complete.
unfoldable pub states_eq :
    Env → WorkerInfo → ℕ → ReqSendTask → IpcBlockBounds → List IpcBlock → Result (List IpcBlock)
states_eq env src block_size task bounds blocks = do
  gdn ←
      parse_hybrid_gdn_block_send_p_eq_d env block_size src.num_gdn_layers task.req.src_blocks
        task.req.dst_blocks bounds blocks
  parse_hybrid_short_conv_block_send_p_eq_d env block_size src.num_ple_layers src.ple_block_group
      task.req.src_blocks task.req.dst_blocks bounds gdn

unfoldable pub last_states_eq :
    Env → WorkerInfo → ℕ → ReqSendTask → IpcBlockBounds → List IpcBlock → Result (List IpcBlock)
last_states_eq env src block_size task bounds blocks =
    if task.reach_last_token then states_eq env src block_size task bounds blocks else ok blocks

unfoldable pub states_gt :
    Env
    → WorkerInfo
    → PageGroup
    → ReqSendTask
    → IpcBlockBounds
    → List IpcBlock
    → Result (List IpcBlock)
states_gt env src g task bounds blocks = do
  gdn ←
      parse_hybrid_gdn_block_send_p_gt_d env g.p_block_size g.d_block_size src.num_gdn_layers
        g.group_n g.group_off src task.req.src_blocks task.req.dst_blocks bounds blocks
  parse_hybrid_short_conv_block_send_p_gt_d env g.p_block_size g.d_block_size src.num_ple_layers
      src.ple_block_group g.group_n g.group_off src task.req.src_blocks task.req.dst_blocks bounds
      gdn

unfoldable pub last_states_gt :
    Env
    → WorkerInfo
    → PageGroup
    → ReqSendTask
    → IpcBlockBounds
    → List IpcBlock
    → Result (List IpcBlock)
last_states_gt env src g task bounds blocks =
    if task.reach_last_token then states_gt env src g task bounds blocks else ok blocks

unfoldable pub states_lt :
    Env
    → WorkerInfo
    → PageGroup
    → ReqSendTask
    → IpcBlockBounds
    → List IpcBlock
    → Result (List IpcBlock)
states_lt env src g task bounds blocks = do
  gdn ←
      parse_hybrid_gdn_block_send_p_lt_d env g.p_block_size g.d_block_size src.num_gdn_layers
        g.group_n g.group_off src task.req.src_blocks task.req.dst_blocks bounds blocks
  parse_hybrid_short_conv_block_send_p_lt_d env g.p_block_size g.d_block_size src.num_ple_layers
      src.ple_block_group g.group_n g.group_off src task.req.src_blocks task.req.dst_blocks bounds
      gdn

unfoldable pub last_states_lt :
    Env
    → WorkerInfo
    → PageGroup
    → ReqSendTask
    → IpcBlockBounds
    → List IpcBlock
    → Result (List IpcBlock)
last_states_lt env src g task bounds blocks =
    if task.reach_last_token then states_lt env src g task bounds blocks else ok blocks

-- `assert(a % b == 0)`
unfoldable pub assert_multiple : Env → ℕ → ℕ → Result (Unit {0})
assert_multiple env a b = do
  rest ← if env.asserts then mod_by a b else ok 0
  assert env.asserts (rest == 0)

-- `assert(a / b == c)`
unfoldable pub assert_quotient : Env → ℕ → ℕ → ℕ → Result (Unit {0})
assert_quotient env a b c = do
  quotient ← if env.asserts then div a b else ok c
  assert env.asserts (quotient == c)

-- The group of a rank where P has more, or fewer.
unfoldable pub group_gt : Env → WorkerInfo → WorkerInfo → Result (ℕ × ℕ)
group_gt env src dst = do
  assert env.asserts (ltb dst.engine_tp_size src.engine_tp_size)
  assert_multiple env src.engine_tp_size dst.engine_tp_size
  group_n ← div src.engine_tp_size dst.engine_tp_size
  assert_quotient env src.worker_tp_rank group_n dst.worker_tp_rank
  group_off ← mod_by src.worker_tp_rank group_n
  ok (group_n, group_off)

unfoldable pub group_lt : Env → WorkerInfo → WorkerInfo → Result (ℕ × ℕ)
group_lt env src dst = do
  assert env.asserts (ltb src.engine_tp_size dst.engine_tp_size)
  assert_multiple env dst.engine_tp_size src.engine_tp_size
  group_n ← div dst.engine_tp_size src.engine_tp_size
  group_off ← mod_by dst.worker_tp_rank group_n
  assert_quotient env dst.worker_tp_rank group_n src.worker_tp_rank
  ok (group_n, group_off)

-- The sizes of the only cache tensor: of a token and of a block, for P and for D.
unfoldable pub only_sizes : Env → WorkerInfo → WorkerInfo → Result ((ℕ × ℕ) × (ℕ × ℕ))
only_sizes env src dst = do
  assert env.asserts (length src.token_sizes == 1)
  assert env.asserts (length dst.token_sizes == 1)
  assert env.asserts (length src.block_sizes == 1)
  assert env.asserts (length dst.block_sizes == 1)
  p_token_size ← at src.token_sizes 0
  d_token_size ← at dst.token_sizes 0
  p_block_size ← at src.block_sizes 0
  d_block_size ← at dst.block_sizes 0
  ok ((p_token_size, p_block_size), (d_token_size, d_block_size))

-- The slice of P's heads that D's rank has: the number of slices, and the slice.
unfoldable pub slice_of : Env → WorkerInfo → WorkerInfo → ℕ → ℕ → Result (ℕ × ℕ)
slice_of env src dst p_token_size d_token_size = do
  assert env.asserts (ltb d_token_size p_token_size)
  assert_multiple env p_token_size d_token_size
  quotient ← div p_token_size d_token_size
  let group_n = u32 quotient
  let per_slice = u32 (src.engine_tp_size * group_n)
  assert_multiple env dst.engine_tp_size per_slice
  replicas ← div dst.engine_tp_size per_slice
  slice ← div dst.worker_tp_rank replicas
  group_off ← mod_by slice group_n
  ok (group_n, group_off)
