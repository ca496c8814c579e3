-- ===== src/Stub/Decode.antt =====
-- The message of `rpc_send_done` (kvtransfer/src/tx_stub.cpp) says what it means: it decodes to what
-- became of each request. The decoder is the receiver's view, written for this purpose.

use llumnix_kv.Base.{
  ◌>>=◌, ℕ, zero, suc, ◌+◌, ◌*◌, ◌^◌, ◌<◌, ◌≡◌, refl, sym, ap, ◌∙◌, true, List, [], ◌∷◌, ◌++◌,
  append_assoc, append-nil, length, take, drop, ltb, false, u32, u32_lem, lt→ltb, ◌==◌,
  if◌then◌else◌, map, Result, Error, ok, err, assert_ok, for_each, All, arith,
}
use llumnix_kv.Env.{Env}
use llumnix_kv.Types.{Bytes, ReqState, States, ReqSendTask}
use llumnix_kv.Stub.Notify.{
  le4, code_of, end_tokens, request_record, append_record, send_done_buf, send_done_req,
  save_done2_req, has_ver2, send_save_done_head_kind,
}

-- A little-endian word, and the bytes after it.
unfoldable pub read4 : Bytes → Result (ℕ × Bytes)
read4 (a ∷ b ∷ c ∷ d ∷ rest) = ok (a + 256 * b + 65536 * c + 16777216 * d, rest)
read4 _ = err Error.out_of_range

pub read4-le4 : (x : ℕ) (rest : Bytes) → x < 2 ^ 32 → read4 (le4 x ++ rest) ≡ ok (x, rest)
unfolding read4
read4-le4 x rest h = ap (λ (n : ℕ). ok (n, rest)) (omega arith)

-- The records of a message: the end position, the code and the id of each request.
unfoldable pub read_records : ℕ → Bytes → Result (List (ℕ × ℕ × Bytes))
read_records zero bytes = ok []
read_records (suc n) bytes = do
  (plen, bytes₁) ← read4 bytes
  (code, bytes₂) ← read4 bytes₁
  (rlen, bytes₃) ← read4 bytes₂
  rest ← read_records n (drop rlen bytes₃)
  ok ((plen, code, take rlen bytes₃) ∷ rest)

-- What became of a request.
abbrev pub meaning : States → ReqSendTask → ℕ × ℕ × Bytes
meaning states t = (end_tokens t, code_of (states t.req.handle), t.req.req_id)

-- An id whose record has a size that fits in 32 bits.
abbrev pub ShortId : ReqSendTask → Type 0
ShortId t = 4 + 4 + 4 + length t.req.req_id < 2 ^ 32

take-append : (xs ys : Bytes) → take (length xs) (xs ++ ys) ≡ xs
take-append [] ys = refl
take-append (x ∷ xs) ys = ap (◌∷◌ x) (take-append xs ys)

take_all : (xs : Bytes) → take (length xs) xs ≡ xs
take_all [] = refl
take_all (x ∷ xs) = ap (◌∷◌ x) (take_all xs)

drop-append : (xs ys : Bytes) → drop (length xs) (xs ++ ys) ≡ ys
drop-append [] ys = refl
drop-append (x ∷ xs) ys = drop-append xs ys

code_small : (r : ReqState) → code_of r < 2 ^ 32
code_small ReqState.finished = omega arith
code_small ReqState.failed = omega arith
code_small ReqState.inprocess = omega arith

-- The records, one after the other.
abbrev pub records : States → List ReqSendTask → Bytes
records states [] = []
records states (t ∷ ts) = request_record states t (length t.req.req_id) ++ records states ts

read_records_lem :
    (states : States) (ts : List ReqSendTask) (rest : Bytes)
    → All ShortId ts
    → read_records (length ts) (records states ts ++ rest) ≡ ok (map (meaning states) ts)
unfolding read_records request_record end_tokens ◌>>=◌
read_records_lem states [] rest a = refl
read_records_lem states (t ∷ ts) rest a =
    let id = t.req.req_id in
    let tail = records states ts ++ rest in
    rw
      (
        append_assoc (request_record states t (length id)) (records states ts) rest,
        take_all id,
        append_assoc (le4 (end_tokens t))
            (le4 (code_of (states t.req.handle)) ++ (le4 (length id) ++ id)) tail,
        append_assoc (le4 (code_of (states t.req.handle))) (le4 (length id) ++ id) tail,
        append_assoc (le4 (length id)) id tail,
        read4-le4 (u32 (t.seen_tokens + t.new_tokens))
            (le4 (code_of (states t.req.handle)) ++ (le4 (length id) ++ (id ++ tail)))
            (omega arith),
        read4-le4 (code_of (states t.req.handle)) (le4 (length id) ++ (id ++ tail))
            (code_small (states t.req.handle)),
        read4-le4 (length id) (id ++ tail) (omega (arith, a.0)),
        take-append id tail,
        drop-append id tail,
        read_records_lem states ts rest a.1,
      )
      refl

-- A message: its header, the sender's rank, and the records.
unfoldable pub read_message : Bytes → Result (ℕ × ℕ × List (ℕ × ℕ × Bytes))
read_message bytes = do
  (header, bytes₁) ← read4 bytes
  (rank, bytes₂) ← read4 bytes₁
  (num_req, bytes₃) ← read4 bytes₂
  reqs ← read_records num_req bytes₃
  ok (header, rank, reqs)

-- The loop appends the records.
append_loop :
    (env : Env) (states : States) (ts : List ReqSendTask) (buf : Bytes)
    → All (λ t. t.reach_last_token ≡ true) ts
    → All ShortId ts
    → for_each ts (append_record env states) buf ≡ ok (buf ++ records states ts)
unfolding for_each append_record ◌>>=◌
append_loop env states [] buf a ids = ap ok (sym (append-nil buf))
append_loop env states (t ∷ ts) buf a ids =
    let id = t.req.req_id in
    let record_ = request_record states t (length id) in
    let fits : ltb (u32 (4 + 4 + 4 + length id)) (4 + 4 + 4 + length id) ≡ false =
      ground (arith, ids.0) in
    rw
      (
        assert_ok env.asserts t.reach_last_token a.0,
        u32_lem {n = length id} (omega (arith, ids.0)),
        fits,
      )
      (append_loop env states ts (buf ++ record_) a.1 ids.1
        ∙ ap ok (append_assoc buf record_ (records states ts)))

module _ (env : Env) (rank : ℕ) (states : States) (reqs : List ReqSendTask) where
  -- The message with a given header.
  abbrev pub message : ℕ → Bytes
  message header =
      le4 header ++ (le4 (rank + has_ver2) ++ (le4 (u32 (length reqs)) ++ records states reqs))

  read_message_lem :
      (header : ℕ)
      → header < 2 ^ 32
      → rank < 65535
      → length reqs < 2 ^ 32
      → All ShortId reqs
      → read_message (message header) ≡ ok (header, rank + has_ver2, map (meaning states) reqs)
  unfolding read_message ◌>>=◌
  read_message_lem header h small few ids =
      let body = records states reqs in
      let all : read_records (length reqs) body ≡ ok (map (meaning states) reqs) =
        ap (read_records (length reqs)) (sym (append-nil body))
        ∙ read_records_lem states reqs [] ids in
      rw
        (
          u32_lem {n = length reqs} few,
          read4-le4 header (le4 (rank + has_ver2) ++ (le4 (length reqs) ++ body)) h,
          read4-le4 (rank + has_ver2) (le4 (length reqs) ++ body) (omega arith),
          read4-le4 (length reqs) body few,
          all,
        )
        refl

  -- Where each request of `reqs` has its last token, the rank is below 65535, there are fewer than
  -- 2^32 requests, and 12 bytes and an id are fewer than 2^32 (`ShortId`), the buffer of
  -- `rpc_send_done` is built; it is one message, or with the second kind of header two, and each
  -- decodes to its header, the rank, and the end position, the code and the id of each request.
  pub send_done_buf-read :
      rank < 65535
      → length reqs < 2 ^ 32
      → All (λ t. t.reach_last_token ≡ true) reqs
      → All ShortId reqs
      → (send_done_buf env rank states reqs
          ≡ ok (
              if env.send_done_head_kind == send_save_done_head_kind
              then message send_done_req ++ message save_done2_req
              else message send_done_req))
        × (read_message (message send_done_req)
            ≡ ok (send_done_req, rank + has_ver2, map (meaning states) reqs))
        × (read_message (message save_done2_req)
            ≡ ok (save_done2_req, rank + has_ver2, map (meaning states) reqs))
  unfolding send_done_buf ◌>>=◌
  send_done_buf-read small few last ids = (
    rw
        (
          assert_ok env.asserts _ (lt→ltb rank 0xffff small),
          append_loop env states reqs
              (le4 send_done_req ++ (le4 (rank + has_ver2) ++ le4 (u32 (length reqs)))) last ids,
        )
        refl,
    read_message_lem send_done_req (omega arith) small few ids,
    read_message_lem save_done2_req (omega arith) small few ids,
  )
