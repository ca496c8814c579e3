-- ===== src/Env.antt =====
-- kvtransfer/include/envcfg.h: what the code reads from its environment, and how it is built.
use llumnix_kv.Base.{ℕ, Bool}

-- `asserts` holds in a build without `NDEBUG`. The other fields are the values that the `env_…`
-- functions of the same names return.
pub record Env : Type 0 where
  pub asserts : Bool
  pub bf162fp8_conversion : Bool
  pub pad_last_attn_block : Bool
  pub cache_shape : ℕ
  pub send_done_head_kind : ℕ
  pub txstub_cap : ℕ

-- The cache shapes.
abbrev pub ragged_flash_cache_shape : ℕ
ragged_flash_cache_shape = 1

abbrev pub flash_cache_shape : ℕ
flash_cache_shape = 2

abbrev pub qwen3_next_flash_cache_shape : ℕ
qwen3_next_flash_cache_shape = 3

abbrev pub dpsk_v32_sparse_mla_shape : ℕ
dpsk_v32_sparse_mla_shape = 4

abbrev pub flashinfer_cache_shape : ℕ
flashinfer_cache_shape = 5

abbrev pub turboquant_cache_shape : ℕ
turboquant_cache_shape = 6

abbrev pub qwen3_next_flashinfer_cache_shape : ℕ
qwen3_next_flashinfer_cache_shape = 7

abbrev pub kimi_k3_mla_cache_shape : ℕ
kimi_k3_mla_cache_shape = 8

abbrev pub max_tp_size : ℕ
max_tp_size = 16
