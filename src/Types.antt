-- ===== src/Types.antt =====
-- kvtransfer/include/common.h and channel.h: the data that the components exchange.
use llumnix_kv.Base.{ℕ, Bool, List, Option}

-- `std::string`, as its bytes.
abbrev pub Bytes : Type 0
Bytes = List ℕ

-- One list of block ids for each KV cache group.
abbrev pub BlockIds : Type 0
BlockIds = List (List ℕ)

-- `int`, so far as the code tests signs: `negsuc n` is -(n + 1).
pub data ℤ : Type 0 where
  pos : ℕ → ℤ
  negsuc : ℕ → ℤ

-- A positive `num_kv_heads`, and 0 for any other.
abbrev pub heads_of : ℤ → ℕ
heads_of (pos n) = n
heads_of (negsuc n) = 0

pub record IpcBlock : Type 0 where
  pub src_offset : ℕ
  pub dst_offset : ℕ
  pub length : ℕ

pub data TpKind : Type 0 where
  peqd pltd pgtd unknown : TpKind

pub record WorkerInfo : Type 0 where
  pub inst_id : Bytes
  pub worker_id : ℕ
  pub engine_tp_size : ℕ
  pub worker_tp_rank : ℕ
  pub block_sizes : List ℕ
  pub token_sizes : List ℕ
  pub layer_num_blocks : ℕ
  pub num_layers : ℕ
  pub transfer_protocols : ℕ
  pub attn_kernel_blk_ntpb : ℕ
  pub indexer_blk_ntpb : ℕ
  pub attn_pack_size : ℕ
  pub addr : Bytes
  -- Local only, not serialised.
  pub num_kv_heads : ℤ
  pub num_gdn_layers : ℕ
  pub hybrid_indexer_token_size : ℕ
  pub gdn_conv_elem_size : ℕ
  pub gdn_ssm_elem_size : ℕ
  pub conv_state_shape : List ℕ
  pub ssm_state_shape : List ℕ
  pub gdn_conv_channel_dims : List ℕ
  pub num_ple_layers : ℕ
  pub ple_block_group : ℕ
  pub ple_conv_elem_size : ℕ
  pub ple_conv_state_shape : List ℕ
  pub ple_conv_channel_dims : List ℕ
  pub kda_conv_dim_first : Bool
  pub hybrid_attn_token_size : ℕ
  -- Serialised.
  pub kda_page_stride : ℕ

pub data ReqState : Type 0 where
  inprocess finished failed : ReqState

-- The immutable part of a request. Tasks share it by pointer: `handle` is the pointer, and the
-- mutable state of the request is kept in a `States`.
pub record RequestInfo : Type 0 where
  pub handle : ℕ
  pub dst_inst_id : Bytes
  pub dst_worker_id : ℕ
  pub dst_worker_info : Option WorkerInfo
  pub req_id : Bytes
  pub src_blocks : BlockIds
  pub dst_blocks : BlockIds

abbrev pub States : Type 0
States = ℕ → ReqState

pub record ReqSendTask : Type 0 where
  pub req : RequestInfo
  pub seen_tokens : ℕ
  pub new_tokens : ℕ
  pub reach_last_token : Bool
