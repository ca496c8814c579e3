-- ===== src/Tests.antt =====
-- Runs of the models on small inputs, and the data that they share.
pub mod Generators
pub mod Shapes
pub mod Sending
pub mod Merging
pub mod Clients
pub mod Hybrid
use llumnix_kv.Base.{ℕ, true, false, List, [], ◌∷◌, none, arith}
use llumnix_kv.Env.{Env}
use llumnix_kv.Types.{IpcBlock, RequestInfo, ReqSendTask, WorkerInfo, pos}
use llumnix_kv.Bounds.{IpcBlockBounds}
use llumnix_kv.Bounds.Checked.{IsBounds}

abbrev pub plain_env : Env
plain_env = record {
  asserts = true;
  bf162fp8_conversion = false;
  pad_last_attn_block = false;
  cache_shape = 1;
  send_done_head_kind = 2;
  txstub_cap = 8;
}

-- Two blocks each, of 4 tokens.
abbrev pub request : RequestInfo
request = record {
  handle = 7;
  dst_inst_id = 100 ∷ [];
  dst_worker_id = 0;
  dst_worker_info = none;
  req_id = 114 ∷ 49 ∷ [];
  src_blocks = (3 ∷ 1 ∷ []) ∷ [];
  dst_blocks = (0 ∷ 2 ∷ []) ∷ [];
}

-- Tokens 2 to 5, across both blocks.
abbrev pub last_task : ReqSendTask
last_task = record { req = request; seen_tokens = 2; new_tokens = 4; reach_last_token = true }

abbrev pub small_bounds : IpcBlockBounds
small_bounds = record { src_capacity = 64; dst_capacity = 64; src_length_scale = 1; cache_idx = 0 }

pub small_bounds-IsBounds : IsBounds small_bounds
small_bounds-IsBounds = record {
  scale = omega arith;
  src_small = omega arith;
  dst_small = omega arith;
}

-- A worker with one cache tensor of 8 blocks, of `token` bytes to a token and 4 tokens to a block.
abbrev pub worker : ℕ → ℕ → ℕ → ℕ → WorkerInfo
worker tp rank token block = record {
  inst_id = 100 ∷ [];
  worker_id = rank;
  engine_tp_size = tp;
  worker_tp_rank = rank;
  block_sizes = block ∷ [];
  token_sizes = token ∷ [];
  layer_num_blocks = 8;
  num_layers = 2;
  transfer_protocols = 1;
  attn_kernel_blk_ntpb = 0;
  indexer_blk_ntpb = 0;
  attn_pack_size = 0;
  addr = [];
  num_kv_heads = pos 2;
  num_gdn_layers = 0;
  hybrid_indexer_token_size = 0;
  gdn_conv_elem_size = 0;
  gdn_ssm_elem_size = 0;
  conv_state_shape = [];
  ssm_state_shape = [];
  gdn_conv_channel_dims = [];
  num_ple_layers = 0;
  ple_block_group = 0;
  ple_conv_elem_size = 0;
  ple_conv_state_shape = [];
  ple_conv_channel_dims = [];
  kda_conv_dim_first = false;
  hybrid_attn_token_size = 0;
  kda_page_stride = 0;
}
