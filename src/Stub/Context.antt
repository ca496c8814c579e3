-- ===== src/Stub/Context.antt =====
-- kvtransfer/src/tx_stub.cpp: the destination of a sender, `TaskContext::refresh_dst_info` and
-- `try_create_channel`.
use llumnix_kv.Base.{
  ℕ, Bool, true, false, ◌&&◌, List, replicate, Option, none, some, ◌==◌, if◌then◌else◌, Result,
  Error, ok, err, ◌>>◌, assert,
}
use llumnix_kv.Env.{Env, max_tp_size}
use llumnix_kv.Types.{WorkerInfo, TpKind}
use llumnix_kv.Shape.{sizes_eq, count}
use llumnix_kv.Stub.Ranks.{compute_valid_ranks_pd, kvt_tp_rank_of}
use llumnix_kv.Stub.Selection.{ParseBlockFunc, selection_p_tp, select}

-- What a `TaskContext` keeps from batch to batch; `ch` tells whether there is a channel.
pub record TaskContext : Type 0 where
  pub tpkind : TpKind
  pub parse_block : Option ParseBlockFunc
  pub dstinfo : Option WorkerInfo
  pub ch : Bool
  pub valid_ranks : List Bool
  pub kvt_tp_size : ℕ
  pub kvt_tp_rank : ℕ

abbrev pub new_context : TaskContext
new_context = record {
  tpkind = TpKind.unknown;
  parse_block = none;
  dstinfo = none;
  ch = false;
  valid_ranks = replicate max_tp_size false;
  kvt_tp_size = 0;
  kvt_tp_rank = 0;
}

unfoldable pub same_dst : WorkerInfo → WorkerInfo → Bool
same_dst l r =
    sizes_eq l.inst_id r.inst_id
    && l.worker_id == r.worker_id
    && l.engine_tp_size == r.engine_tp_size
    && l.worker_tp_rank == r.worker_tp_rank
    && sizes_eq l.block_sizes r.block_sizes
    && sizes_eq l.token_sizes r.token_sizes
    && l.layer_num_blocks == r.layer_num_blocks
    && l.num_layers == r.num_layers
    && l.transfer_protocols == r.transfer_protocols

-- How a step ends, with the state it leaves also when it throws.
abbrev pub Step : Type 0
Step = TaskContext × Result (Unit {0})

-- The end of `refresh_dst_info`: the function for the sizes, or the `throw`.
unfoldable pub choose : Option (ParseBlockFunc × TpKind) → TaskContext → Step
choose none c = (c, err Error.runtime_error)
choose (some (f, kind)) c = (
  record {
    tpkind = kind;
    parse_block = some f;
    dstinfo = c.dstinfo;
    ch = c.ch;
    valid_ranks = c.valid_ranks;
    kvt_tp_size = c.kvt_tp_size;
    kvt_tp_rank = c.kvt_tp_rank;
  },
  ok tt,
)

abbrev pub with_dst : TaskContext → WorkerInfo → TaskContext
with_dst c info = record {
  tpkind = c.tpkind;
  parse_block = c.parse_block;
  dstinfo = some info;
  ch = c.ch;
  valid_ranks = c.valid_ranks;
  kvt_tp_size = c.kvt_tp_size;
  kvt_tp_rank = c.kvt_tp_rank;
}

abbrev pub with_ranks : TaskContext → List Bool → ℕ → ℕ → TaskContext
with_ranks c valid_ranks kvt_tp_size kvt_tp_rank = record {
  tpkind = c.tpkind;
  parse_block = c.parse_block;
  dstinfo = c.dstinfo;
  ch = c.ch;
  valid_ranks = valid_ranks;
  kvt_tp_size = kvt_tp_size;
  kvt_tp_rank = kvt_tp_rank;
}

abbrev pub with_addr : WorkerInfo → WorkerInfo → WorkerInfo
with_addr info from = record {
  inst_id = info.inst_id;
  worker_id = info.worker_id;
  engine_tp_size = info.engine_tp_size;
  worker_tp_rank = info.worker_tp_rank;
  block_sizes = info.block_sizes;
  token_sizes = info.token_sizes;
  layer_num_blocks = info.layer_num_blocks;
  num_layers = info.num_layers;
  transfer_protocols = info.transfer_protocols;
  attn_kernel_blk_ntpb = info.attn_kernel_blk_ntpb;
  indexer_blk_ntpb = info.indexer_blk_ntpb;
  attn_pack_size = info.attn_pack_size;
  addr = from.addr;
  num_kv_heads = info.num_kv_heads;
  num_gdn_layers = info.num_gdn_layers;
  hybrid_indexer_token_size = info.hybrid_indexer_token_size;
  gdn_conv_elem_size = info.gdn_conv_elem_size;
  gdn_ssm_elem_size = info.gdn_ssm_elem_size;
  conv_state_shape = info.conv_state_shape;
  ssm_state_shape = info.ssm_state_shape;
  gdn_conv_channel_dims = info.gdn_conv_channel_dims;
  num_ple_layers = info.num_ple_layers;
  ple_block_group = info.ple_block_group;
  ple_conv_elem_size = info.ple_conv_elem_size;
  ple_conv_state_shape = info.ple_conv_state_shape;
  ple_conv_channel_dims = info.ple_conv_channel_dims;
  kda_conv_dim_first = info.kda_conv_dim_first;
  hybrid_attn_token_size = info.hybrid_attn_token_size;
  kda_page_stride = info.kda_page_stride;
}

-- A new destination, once its ranks are known.
unfoldable pub bind_ranks : Env → WorkerInfo → WorkerInfo → List Bool → TaskContext → Step
bind_ranks env src info ranks c =
    let size = count ranks in
    let bound = with_ranks c ranks size (kvt_tp_rank_of ranks src.worker_tp_rank) in
    let clean : Bool = elim c.parse_block [ none ↦ true | some f ↦ false ] in
    let unknown : Bool = elim c.tpkind [ TpKind.unknown ↦ true | _ ↦ false ] in
    elim (assert env.asserts clean >> assert env.asserts unknown) [
      | err e ↦ (bound, err e)
      | ok _ ↦
          choose (select env.cache_shape src info (selection_p_tp env.cache_shape src size)) bound
    ]

-- A new destination.
unfoldable pub bind_dst : Env → WorkerInfo → WorkerInfo → TaskContext → Step
bind_dst env src info c =
    let c' = with_dst c info in
    elim (compute_valid_ranks_pd env src.engine_tp_size info.engine_tp_size src.num_kv_heads) [
      | err e ↦ (c', err e)
      | ok ranks ↦ bind_ranks env src info ranks c'
    ]

-- `found` is what `naming_->get_worker_info` returns.
unfoldable pub refresh_dst_info : Env → WorkerInfo → Option WorkerInfo → TaskContext → Step
refresh_dst_info env src none c = elim c.dstinfo [
  | some info ↦ (c, ok tt)
  | none ↦ (c, err Error.runtime_error)
]
refresh_dst_info env src (some found) c = elim c.dstinfo [
  | some info ↦
      if same_dst info found then (with_dst c (with_addr info found), ok tt) else (c, ok tt)
  | none ↦ bind_dst env src found c
]

abbrev pub with_ch : TaskContext → Bool → TaskContext
with_ch c ch = record {
  tpkind = c.tpkind;
  parse_block = c.parse_block;
  dstinfo = c.dstinfo;
  ch = ch;
  valid_ranks = c.valid_ranks;
  kvt_tp_size = c.kvt_tp_size;
  kvt_tp_rank = c.kvt_tp_rank;
}

-- `active` is what `ch->is_active()` returns, and `create` how `channel_factory_->create` ends.
unfoldable pub try_create_channel :
    Env
    → WorkerInfo
    → Option WorkerInfo
    → Bool
    → (WorkerInfo → Result (Unit {0}))
    → TaskContext
    → Step
try_create_channel env src found active create c =
    let has_dst : Bool = elim c.dstinfo [ none ↦ false | some info ↦ true ] in
    let refreshed = refresh_dst_info env src found c in
    if c.ch && active then (c, assert env.asserts has_dst) else elim refreshed.1 [
      | err e ↦ (refreshed.0, err e)
      | ok _ ↦ elim refreshed.0.dstinfo [
        | none ↦ (refreshed.0, err (if env.asserts then Error.aborted else Error.undefined))
        | some info ↦ elim (create info) [
          | err e ↦ (refreshed.0, err e)
          | ok _ ↦ (with_ch refreshed.0 true, ok tt)
        ]
      ]
    ]
