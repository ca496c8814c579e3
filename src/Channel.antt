-- ===== src/Channel.antt =====
-- kvtransfer/src/channel.cpp: the merging of adjacent copies before a transfer.
pub mod Merge
pub mod Totals
use llumnix_kv.Base.{
  ℕ, ◌+◌, Bool, true, ◌&&◌, List, [], ◌∷◌, ◌++◌, min, max, push_back, u64, size_max, ◌==◌,
  if◌then◌else◌,
}
use llumnix_kv.Types.{IpcBlock}

unfoldable pub can_merge : IpcBlock → IpcBlock → Bool
can_merge pre_block cur_block =
    cur_block.src_offset == u64 (pre_block.src_offset + pre_block.length)
    && cur_block.dst_offset == u64 (pre_block.dst_offset + pre_block.length)

-- The four results of `merge_interval`.
pub record Sizes : Type 0 where
  pub min_size : ℕ
  pub max_size : ℕ
  pub total_size : ℕ
  pub cnt : ℕ

abbrev pub no_sizes : Sizes
no_sizes = record { min_size = size_max; max_size = 0; total_size = 0; cnt = 0 }

-- A block is complete.
unfoldable pub note : Sizes → ℕ → Sizes
note s length = record {
  min_size = min s.min_size length;
  max_size = max s.max_size length;
  total_size = u64 (s.total_size + length);
  cnt = u64 (s.cnt + 1);
}

abbrev pub with_length : IpcBlock → ℕ → IpcBlock
with_length b n = record { src_offset = b.src_offset; dst_offset = b.dst_offset; length = n }

-- The loop, from `input[idx]` on: `pre_block` is `input[prev_idx]`, and `zeroed` the entries between
-- the two, which have been merged into it.
unfoldable pub merge_from : IpcBlock → List IpcBlock → List IpcBlock → Sizes → List IpcBlock × Sizes
merge_from pre_block zeroed [] s = (pre_block ∷ zeroed, note s pre_block.length)
merge_from pre_block zeroed (cur_block ∷ rest) s =
    let merged =
      merge_from (with_length pre_block (u64 (pre_block.length + cur_block.length)))
        (push_back zeroed (with_length cur_block 0)) rest s in
    let next = merge_from cur_block [] rest (note s pre_block.length) in
    if can_merge pre_block cur_block then merged else (pre_block ∷ (zeroed ++ next.0), next.1)

abbrev pub merge_sorted : List IpcBlock → List IpcBlock × Sizes
merge_sorted [] = ([], no_sizes)
merge_sorted (b ∷ bs) = merge_from b [] bs no_sizes

-- `std::sort` leaves the order of blocks with equal `src_offset` open: `sort` is what it does.
unfoldable pub merge_interval :
    (List IpcBlock → List IpcBlock) → List IpcBlock → List IpcBlock × Sizes
merge_interval sort input = merge_sorted (sort input)
