-- ===== src/Stub/Notify.antt =====
-- kvtransfer/src/tx_stub.cpp: the message of `TaskContext::rpc_send_done`, which tells the peer how
-- the finished requests ended. A `vector<char>` is the list of its bytes.
use llumnix_kv.Base.{
  ℕ, ◌+◌, ◌/◌, ◌%◌, List, [], ◌∷◌, ◌++◌, length, take, drop, u32, ◌==◌, ltb, if◌then◌else◌, Result,
  Error, ok, err, ◌>>=◌, ◌>>◌, assert, for_each,
}
use llumnix_kv.Env.{Env}
use llumnix_kv.Types.{Bytes, ReqState, States, ReqSendTask}

-- memcpy(dst, &x, 4) of a `uint32_t`, on a little-endian machine.
abbrev pub le4 : ℕ → Bytes
le4 x = x % 256 ∷ x / 256 % 256 ∷ x / 65536 % 256 ∷ x / 16777216 % 256 ∷ []

abbrev pub send_done_req : ℕ
send_done_req = 0x20181219

abbrev pub save_done2_req : ℕ
save_done2_req = 0x20181223

abbrev pub has_ver2 : ℕ
has_ver2 = 0x40000000

abbrev pub send_save_done_head_kind : ℕ
send_save_done_head_kind = 2

-- `ReqSendTask::end_tokens`.
unfoldable pub end_tokens : ReqSendTask → ℕ
end_tokens task = u32 (task.seen_tokens + task.new_tokens)

abbrev pub code_of : ReqState → ℕ
code_of ReqState.finished = 0
code_of _ = 500

-- The record of one request, whose id has `rlen` bytes: the four copies into the room for it.
unfoldable pub request_record : States → ReqSendTask → ℕ → Bytes
request_record states task rlen =
    le4 (end_tokens task)
    ++ (le4 (code_of (states task.req.handle)) ++ (le4 rlen ++ take rlen task.req.req_id))

-- One round of the loop that fills `send_done_buf`. The size that `expand_vec` is given is a `uint32_t`;
-- where it wraps, the last copy runs past the end of the buffer.
unfoldable pub append_record : Env → States → ReqSendTask → Bytes → Result Bytes
append_record env states task buf = do
  assert env.asserts task.reach_last_token
  let rlen = u32 (length task.req.req_id)
  if ltb (u32 (4 + 4 + 4 + rlen)) (4 + 4 + 4 + rlen)
      then err Error.undefined
      else ok (buf ++ request_record states task rlen)

-- `send_done_buf`, as it is sent; `worker_tp_rank |= HAS_VER2` adds a bit that a rank below 0xffff does
-- not have.
unfoldable pub send_done_buf : Env → ℕ → States → List ReqSendTask → Result Bytes
send_done_buf env worker_tp_rank states reqs = do
  assert env.asserts (ltb worker_tp_rank 0xffff)
  buf ←
      for_each reqs (append_record env states)
        (le4 send_done_req ++ (le4 (worker_tp_rank + has_ver2) ++ le4 (u32 (length reqs))))
  ok (
      if env.send_done_head_kind == send_save_done_head_kind
      then buf ++ (le4 save_done2_req ++ drop 4 buf)
      else buf)
