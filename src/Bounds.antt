-- ===== src/Bounds.antt =====
-- kvtransfer/src/parse_block_common.cpp and include/parse_block_common.h: the capacity of a layer
-- and the check of each emitted range; kvtransfer/src/channel.cpp: the check before a copy.
pub mod Checked
use llumnix_kv.Base.{
  ℕ, ◌-◌, ◌*◌, ◌/◌, Bool, true, not, ◌&&◌, ◌||◌, List, [], ◌∷◌, length, push_back, u64, size_max,
  ltb, leb, ◌==◌, if◌then◌else◌, Result, Error, ok, err, ◌>>=◌, ◌>>◌, guard, index,
}
use llumnix_kv.Env.{Env}
use llumnix_kv.Types.{IpcBlock, WorkerInfo}

pub record IpcBlockBounds : Type 0 where
  pub src_capacity : ℕ
  pub dst_capacity : ℕ
  pub src_length_scale : ℕ
  pub cache_idx : ℕ

unfoldable pub checked_layer_capacity : WorkerInfo → ℕ → Result ℕ
checked_layer_capacity info cache_idx = do
  guard (ltb cache_idx (length info.block_sizes) && not (info.layer_num_blocks == 0))
      Error.out_of_range
  block_size ← index info.block_sizes cache_idx
  guard (leb block_size (size_max / info.layer_num_blocks)) Error.overflow_error
  ok (u64 (block_size * info.layer_num_blocks))

unfoldable pub make_ipc_block_bounds : Env → WorkerInfo → WorkerInfo → ℕ → Result IpcBlockBounds
make_ipc_block_bounds env src dst cache_idx = do
  s ← checked_layer_capacity src cache_idx
  d ← checked_layer_capacity dst cache_idx
  ok (record {
    src_capacity = s;
    dst_capacity = d;
    src_length_scale = if env.bf162fp8_conversion then 2 else 1;
    cache_idx = cache_idx;
  })

-- The tests of one end of a range: `length * scale` bytes from `offset` do not fit in `capacity`.
unfoldable pub range_invalid : ℕ → ℕ → ℕ → ℕ → Bool
range_invalid length scale offset capacity =
    length == 0
    || length_overflow
    || ltb capacity offset
    || ltb (capacity - offset) (if length_overflow then size_max else u64 (length * scale))
  where
    length_overflow : Bool
    length_overflow = scale == 0 || ltb (size_max / scale) length

unfoldable pub append_ipc_block_checked :
    List IpcBlock → IpcBlockBounds → ℕ → ℕ → ℕ → Result (List IpcBlock)
append_ipc_block_checked blocks bounds src_offset dst_offset length =
    if range_invalid length bounds.src_length_scale src_offset bounds.src_capacity
      || range_invalid length 1 dst_offset bounds.dst_capacity
    then err Error.out_of_range
    else ok (
        push_back blocks
          (record { src_offset = src_offset; dst_offset = dst_offset; length = length }))

pub data IpcBlockOffset : Type 0 where
  source destination : IpcBlockOffset

abbrev pub offset_of : IpcBlockOffset → IpcBlock → ℕ
offset_of IpcBlockOffset.source b = b.src_offset
offset_of IpcBlockOffset.destination b = b.dst_offset

unfoldable pub validate_ipc_block_bounds :
    List IpcBlock → ℕ → IpcBlockOffset → ℕ → Result (Unit {0})
validate_ipc_block_bounds [] capacity kind scale = ok tt
validate_ipc_block_bounds (b ∷ bs) capacity kind scale =
    let rest = validate_ipc_block_bounds bs capacity kind scale in
    if range_invalid b.length scale (offset_of kind b) capacity
    then err Error.out_of_range
    else rest
