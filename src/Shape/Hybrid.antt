-- ===== src/Shape/Hybrid.antt =====
-- The block generators of the hybrid cache shapes: kvtransfer/src/parse_block_qwen3_next.cpp,
-- parse_block_flashinfer.cpp, parse_block_qwen3_next_flashinfer.cpp and parse_block_turboquant.cpp. The
-- groups of a request are the recurrent states, the indexer, if there is one, and the attention.
pub mod Aligned
pub mod Attn
pub mod AttnFill
pub mod Gdn
pub mod GdnLt
pub mod ShortConv
pub mod Parts
pub mod Send
pub mod Hnd
pub mod FlashInfer
pub mod FlashInferSend
pub mod FlashInferLt
pub mod BlocksSafe
pub mod StatesSafe
pub mod HndSafe
pub mod InLayers
pub mod AttnSafe
pub mod WholeBlocks
pub mod Pages
pub mod Chunks
