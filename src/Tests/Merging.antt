-- ===== src/Tests/Merging.antt =====
-- Runs of `merge_interval` (kvtransfer/src/channel.cpp).
use mathlib.Core.List.{Perm, Permᴰ}
use llumnix_kv.Base.{◌≡◌, refl, List, [], ◌∷◌, length, u64, All, arith}
use llumnix_kv.Types.{IpcBlock}
use llumnix_kv.Copies.{bytes}
use llumnix_kv.Channel.{merge_interval}
use llumnix_kv.Channel.Merge.{Bounded, merge_interval-bytes}
use llumnix_kv.Channel.Totals.{Filled, lengths_left, IsTotals, merge_interval-sizes}

-- Two blocks out of order that merge, as `std::sort` would leave them.
abbrev first : IpcBlock
first = record { src_offset = 8; dst_offset = 0; length = 4 }

abbrev second : IpcBlock
second = record { src_offset = 12; dst_offset = 4; length = 2 }

abbrev flip : List IpcBlock → List IpcBlock
flip (a ∷ b ∷ xs) = b ∷ a ∷ xs
flip xs = xs

all-Bounded : All Bounded (second ∷ first ∷ [])
all-Bounded = (
  record { src = omega arith; dst = omega arith },
  (record { src = omega arith; dst = omega arith }, tt),
)

sorted-Bounded : All Bounded (first ∷ second ∷ [])
sorted-Bounded = (all-Bounded.1.0, (all-Bounded.0, tt))

sorted-Filled : All Filled (first ∷ second ∷ [])
sorted-Filled = (omega arith, (omega arith, tt))

flipped : Perm (flip (second ∷ first ∷ [])) (second ∷ first ∷ [])
flipped = ∣ Permᴰ.swap refl refl ∣₁

merge_interval-bytes_example :
    Perm (bytes (merge_interval flip (second ∷ first ∷ [])).0) (bytes (second ∷ first ∷ []))
merge_interval-bytes_example = merge_interval-bytes flip (second ∷ first ∷ []) flipped all-Bounded

merge_interval-sizes_example :
    IsTotals
      (lengths_left (merge_interval flip (second ∷ first ∷ [])).0)
      (merge_interval flip (second ∷ first ∷ [])).1
    × ((merge_interval flip (second ∷ first ∷ [])).1.total_size
        ≡ u64 (length (bytes (first ∷ second ∷ []))))
merge_interval-sizes_example =
    merge_interval-sizes flip (second ∷ first ∷ []) sorted-Filled sorted-Bounded
