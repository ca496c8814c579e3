-- ===== src/Shape.antt =====
-- The block generators of the single cache shapes: kvtransfer/src/parse_block_ragged.cpp,
-- parse_block_flash.cpp, parse_block_dpsk.cpp and parse_block_kda.cpp, over the shared generators of
-- `Parse`. Here is what they have in common.
pub mod Ragged
pub mod Flash
pub mod Dpsk
pub mod Stream
pub mod Paired
pub mod Split
pub mod SplitBlocks
pub mod FlashSplit
pub mod FlashHalves
pub mod FlashEq
pub mod Kda
pub mod KdaSend
pub mod KimiK3
pub mod Hybrid
pub mod KdaInLayers
pub mod Safety
pub mod InLayers
use llumnix_kv.Base.{
  ℕ, zero, suc, ◌-◌, Bool, true, false, ◌&&◌, List, [], ◌∷◌, ◌++◌, length, take, replicate, ◌==◌,
}
use llumnix_kv.Types.{IpcBlock}

-- `send_blocks`: the blocks of each cache tensor.
abbrev pub SendBlocks : Type 0
SendBlocks = List (List IpcBlock)

-- `vector::resize`.
abbrev pub resize {ℓ} : {A : Type ℓ} → ℕ → List (List A) → List (List A)
resize n xs = take n xs ++ replicate (n - length xs) []

-- `==` on `vector<size_t>`.
abbrev pub sizes_eq : List ℕ → List ℕ → Bool
sizes_eq [] [] = true
sizes_eq (x ∷ xs) (y ∷ ys) = x == y && sizes_eq xs ys
sizes_eq _ _ = false

-- `bitset::count`.
abbrev pub count : List Bool → ℕ
count [] = 0
count (true ∷ bs) = suc (count bs)
count (false ∷ bs) = count bs
