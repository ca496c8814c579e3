-- ===== src/Stub/Ranks.antt =====
-- kvtransfer/src/tx_stub.cpp: which P ranks send, and the rank of a sender among them. A `bitset` is
-- the list of its bits, the lowest first.
use llumnix_kv.Base.{
  ℕ, ◌+◌, ◌-◌, ◌*◌, ◌^◌, Bool, true, false, ◌&&◌, ◌||◌, List, ◌++◌, length, take, replicate, set,
  u32, u64, ltb, leb, ◌==◌, if◌then◌else◌, Result, Error, ok, err, ◌>>=◌, ◌>>◌, assert, div, mod_by,
  for_range,
}
use llumnix_kv.Env.{Env, max_tp_size}
use llumnix_kv.Types.{ℤ, heads_of}
use llumnix_kv.Shape.{count}

-- `result.set(i)`.
unfoldable pub set_bit : ℕ → List Bool → Result (List Bool)
set_bit i bits = if ltb i (length bits) then ok (set bits i true) else err Error.out_of_range

-- `assert(a % b == 0)`.
unfoldable pub assert_divides : Bool → ℕ → ℕ → Result (Unit {0})
assert_divides true a b = mod_by a b >>= λ r. assert true (r == 0)
assert_divides false a b = ok tt

-- for (i = 0; i < n; ++i) result.set(i * stride);
unfoldable pub set_every : ℕ → ℕ → Result (List Bool)
set_every n stride =
    for_range n 0 (λ i bits. set_bit (u32 (i * stride)) bits) (replicate max_tp_size false)

-- P has fewer ranks than D.
unfoldable pub ranks_p_lt_d : Env → ℕ → ℕ → ℕ → Result (List Bool)
ranks_p_lt_d env p_tp d_tp heads = do
  assert_divides env.asserts d_tp p_tp
  assert_divides (env.asserts && (ltb p_tp heads && ltb heads d_tp)) heads p_tp
  assert_divides (env.asserts && (ltb p_tp heads && ltb heads d_tp)) d_tp heads
  set_every p_tp 1

-- Case 2: one rank for each head.
unfoldable pub ranks_by_head : Env → ℕ → ℕ → Result (List Bool)
ranks_by_head env p_tp heads = do
  assert_divides env.asserts p_tp heads
  stride ← div p_tp heads
  set_every heads stride

-- Case 3: one rank for each rank of D.
unfoldable pub ranks_by_dst : Env → ℕ → ℕ → ℕ → Result (List Bool)
ranks_by_dst env p_tp d_tp heads = do
  assert_divides env.asserts d_tp heads
  assert_divides env.asserts p_tp d_tp
  p_ranks_per_d_rank ← div p_tp d_tp
  set_every d_tp p_ranks_per_d_rank

unfoldable pub compute_valid_ranks_pd : Env → ℕ → ℕ → ℤ → Result (List Bool)
compute_valid_ranks_pd env p_tp d_tp num_kv_heads =
    let heads = heads_of num_kv_heads in
    let fan_out = ranks_p_lt_d env p_tp d_tp heads in
    let by_head = ranks_by_head env p_tp heads in
    let by_dst = ranks_by_dst env p_tp d_tp heads in
    if ltb p_tp d_tp
    then fan_out
    else (if heads == 0 || leb p_tp heads
        then set_every p_tp 1
        else (if leb d_tp heads then by_head else by_dst))

-- `bits << n`.
unfoldable pub shift_left : List Bool → ℕ → List Bool
shift_left bits n =
    if leb (length bits) n
    then replicate (length bits) false
    else take (length bits) (replicate n false ++ bits)

-- `kvt_tp_rank`: `(valid_ranks << (valid_ranks.size() - worker_tp_rank)).count()`.
unfoldable pub kvt_tp_rank_of : List Bool → ℕ → ℕ
kvt_tp_rank_of valid_ranks worker_tp_rank =
    count (shift_left valid_ranks (u64 (length valid_ranks + 2 ^ 64 - worker_tp_rank)))
