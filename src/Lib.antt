-- ===== src/Lib.antt =====
-- The KV cache transfer of Llumnix (kvtransfer/): how the sender of one prefill worker decides which
-- bytes of its paged cache go where in the cache of a decode worker, and what becomes of the requests.
--
-- A batch of tasks reaches the sender of its destination (kvtransfer/src/tx_stub.cpp, `do_task`). On the
-- first batch it asks the naming service for the destination, computes which ranks send and binds a
-- block generator for the cache shape and the two tensor-parallel sizes. The generator turns each task
-- into `IpcBlock`s, (source offset, destination offset, length) in a layer, each checked against the
-- capacity of both layers. The channel merges adjacent blocks and copies them, layer by layer; then the
-- states of the finished requests are settled and the peer is notified.
--
-- The client forms the batches: it groups the tasks of a step, or of a substep that comes later or
-- earlier, by destination, and submits them to a cache of targets, each with a sender and a thread. A
-- sender waits, before each layer, until the step says that the layer is computed.
--
-- Files and what they model:
--   Base and its children: machine words, outcomes (a value, an exception, an abort, undefined behaviour,
--     a loop out of fuel), loops whose body may fail with their rules, pages.
--   Env, Types: kvtransfer/include/envcfg.h, common.h and channel.h.
--   Bounds: `append_ipc_block_checked` and `make_ipc_block_bounds` (kvtransfer/include/parse_block_common.h,
--     kvtransfer/src/parse_block_common.cpp), `validate_ipc_block_bounds` (kvtransfer/src/channel.cpp).
--   Copies: the abstract view of a list of blocks, as pairs of bytes; no counterpart in the source.
--   Parse: the shared generators of kvtransfer/src/parse_block_common.cpp.
--   Shape: the generators of single shapes, in kvtransfer/src: Shape/Ragged (parse_block_ragged.cpp),
--     Shape/Flash (parse_block_flash.cpp), Shape/Dpsk (parse_block_dpsk.cpp), Shape/Kda and Shape/KdaSend
--     (parse_block_kda.cpp) and Shape/KimiK3 (parse_block_kimi_k3.cpp); Shape/FlashEq
--     holds the proofs on equal tensor-parallel sizes, Shape/Split and Shape/FlashSplit those on unequal ones.
--   Shape/Hybrid: the generators of hybrid shapes, in kvtransfer/src: parse_block_qwen3_next.cpp (Aligned, Attn,
--     AttnFill, Gdn, GdnLt, ShortConv, Parts and Send; Send has parse_block_turboquant.cpp too),
--     parse_block_flashinfer.cpp (Hnd and FlashInfer) and parse_block_qwen3_next_flashinfer.cpp
--     (FlashInferSend and FlashInferLt). AttnSafe, BlocksSafe, StatesSafe, HndSafe and InLayers show that
--     their blocks lie within the layers, WholeBlocks and Chunks what is sent of a request block by block.
--   Channel: `merge_interval` (kvtransfer/src/channel.cpp).
--   Stub: kvtransfer/src/tx_stub.cpp: the senders (Stub/Ranks), the destination (Stub/Context) and its
--     generator (Stub/Selection), the batch (Stub/Task), the notification (Stub/Notify) and the call of
--     the generator (Stub/Pointers). Stub/Settled, Stub/Finishes and Stub/Returns say what a batch
--     ends with, Stub/Decode reads the notification.
--   Steps: the semaphores (kvtransfer/src/semaphore.cpp) and the guarded step of kvtransfer/src/step.cpp, as
--     turns of the threads that call them.
--   Targets: `TargetMgr` of kvtransfer/src/client.cpp, its map (Targets/Map) and its list (Targets/Manager);
--     Targets/Spec describes the same cache on the list alone.
--   Client: the rest of kvtransfer/src/client.cpp: the tasks of a step (Client/Tasks), their submission to the
--     targets and the jobs that run there (Client/Submit), and the calls of `KvTransferClient`
--     (Client/State, Client/StartSend).
--   Tests: runs on small inputs.
--
-- A function of the source that writes to `send_blocks` returns the new list here. `assert` is checked
-- where `Env.asserts` holds; `at` throws out of range and `[]` is undefined there. The logging has no
-- counterpart. A `while` loop runs on fuel, one more than the number of tokens or bytes it is to cover:
-- each round takes one at least. For the shared generators the theorems on what they return show that
-- the fuel is enough. `std::sort`, the naming service and the channel are
-- arguments of the definitions that call them. A submission (`do_submit`) and the end of a job are one move
-- each: a job that ends while a step is submitted ends before or after it in the model.
--
-- Not modelled: the transports over the barex library, the device copies, the naming clients, the
-- creation of the client, and the transfer specification.
pub mod Base
pub mod Env
pub mod Types
pub mod Bounds
pub mod Copies
pub mod Parse
pub mod Shape
pub mod Steps
pub mod Targets
pub mod Stub
pub mod Channel
pub mod Client
pub mod Tests
