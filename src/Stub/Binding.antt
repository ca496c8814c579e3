-- ===== src/Stub/Binding.antt =====
-- The binding of a sender to its destination (`refresh_dst_info` of kvtransfer/src/tx_stub.cpp).
use llumnix_kv.Base.{
  ℕ, ◌↔◌, ◌⊎◌, inr, subst, false, ◌&&◌, [], ◌∷◌, ==_iff, arith, ◌>>=◌, ◌≡◌, refl, sym, ◌∙◌, inl,
  inr, Bool, true, List, Option, none, some, Bool-cases, Error, ok, err, assert_ok,
}
use llumnix_kv.Env.{Env}
use llumnix_kv.Types.{WorkerInfo}
use llumnix_kv.Shape.{count, sizes_eq}
use llumnix_kv.Stub.Ranks.{compute_valid_ranks_pd, kvt_tp_rank_of}
use llumnix_kv.Stub.Context.{
  TaskContext, Step, new_context, same_dst, choose, with_dst, with_ranks, with_addr, bind_ranks,
  bind_dst, refresh_dst_info,
}
use llumnix_kv.Stub.Selection.{selection_p_tp, select}

-- The same worker, but for its address and what it does not send with it.
pub record SameWorker (l r : WorkerInfo) : Type 0 where
  pub inst_id : l.inst_id ≡ r.inst_id
  pub worker_id : l.worker_id ≡ r.worker_id
  pub engine_tp_size : l.engine_tp_size ≡ r.engine_tp_size
  pub worker_tp_rank : l.worker_tp_rank ≡ r.worker_tp_rank
  pub block_sizes : l.block_sizes ≡ r.block_sizes
  pub token_sizes : l.token_sizes ≡ r.token_sizes
  pub layer_num_blocks : l.layer_num_blocks ≡ r.layer_num_blocks
  pub num_layers : l.num_layers ≡ r.num_layers
  pub transfer_protocols : l.transfer_protocols ≡ r.transfer_protocols

sizes_eq_iff : (xs ys : List ℕ) → (sizes_eq xs ys ≡ true) ↔ (xs ≡ ys)
sizes_eq_iff [] [] = (λ h. refl, λ h. refl)
sizes_eq_iff [] (y ∷ ys) = (λ h. absurd (cc), λ h. absurd (cc))
sizes_eq_iff (x ∷ xs) [] = (λ h. absurd (cc), λ h. absurd (cc))
sizes_eq_iff (x ∷ xs) (y ∷ ys) = ground (arith, ==_iff x y, sizes_eq_iff xs ys)

and_iff {ℓ ℓ'} :
    {P : Type ℓ} {Q : Type ℓ'} (a b : Bool)
    → ((a ≡ true) ↔ P)
    → ((b ≡ true) ↔ Q)
    → ((a && b) ≡ true) ↔ (P × Q)
and_iff true b p q = (λ h. (p.0 refl, q.0 h), λ h. q.1 h.1)
and_iff false b p q = (λ h. absurd (cc), λ h. p.1 h.0)

same_dst_iff : (l r : WorkerInfo) → (same_dst l r ≡ true) ↔ SameWorker l r
unfolding same_dst
same_dst_iff l r =
    let parts =
      and_iff _ _
        (and_iff _ _
          (and_iff _ _
            (and_iff _ _
              (and_iff _ _
                (and_iff _ _
                  (and_iff _ _
                    (and_iff _ _ (sizes_eq_iff l.inst_id r.inst_id)
                      (==_iff l.worker_id r.worker_id))
                    (==_iff l.engine_tp_size r.engine_tp_size))
                  (==_iff l.worker_tp_rank r.worker_tp_rank))
                (sizes_eq_iff l.block_sizes r.block_sizes))
              (sizes_eq_iff l.token_sizes r.token_sizes))
            (==_iff l.layer_num_blocks r.layer_num_blocks))
          (==_iff l.num_layers r.num_layers))
        (==_iff l.transfer_protocols r.transfer_protocols) in
    (
      λ h.
          let f = parts.0 h in
          record {
            inst_id = f.0.0.0.0.0.0.0.0;
            worker_id = f.0.0.0.0.0.0.0.1;
            engine_tp_size = f.0.0.0.0.0.0.1;
            worker_tp_rank = f.0.0.0.0.0.1;
            block_sizes = f.0.0.0.0.1;
            token_sizes = f.0.0.0.1;
            layer_num_blocks = f.0.0.1;
            num_layers = f.0.1;
            transfer_protocols = f.1;
          },
      λ w. parts.1 (
          (
            (
              (
                (
                  ((((w.inst_id, w.worker_id), w.engine_tp_size), w.worker_tp_rank), w.block_sizes),
                  w.token_sizes,
                ),
                w.layer_num_blocks,
              ),
              w.num_layers,
            ),
            w.transfer_protocols,
          )),
    )

-- What the naming service returns is the worker `info`.
abbrev pub IsFound : WorkerInfo → Option WorkerInfo → Type 0
IsFound info none = ⊥
IsFound info (some found) = SameWorker info found

-- The refresh of a bound sender ends in `after`: it takes the address of the worker that was found, or
-- nothing.
abbrev pub Refreshed : WorkerInfo → Option WorkerInfo → TaskContext → Step → Type 0
Refreshed info found c after =
    ((from : WorkerInfo) × (found ≡ some from)
      × SameWorker info from
      × (after ≡ (with_dst c (with_addr info from), ok tt)))
    ⊎ ((¬ IsFound info found) × (after ≡ (c, ok tt)))

bound_step :
    (env : Env) (src info : WorkerInfo) (found : Option WorkerInfo) (c : TaskContext)
    → Refreshed info found (with_dst c info) (refresh_dst_info env src found (with_dst c info))
unfolding refresh_dst_info
bound_step env src info none c = inr (λ h. h, refl)
bound_step env src info (some found) c = elim (Bool-cases (same_dst info found)) [
  | inl b ↦ inl (found, refl, (same_dst_iff info found).0 b, rw b refl)
  | inr b ↦
      inr (λ w. let h : same_dst info found ≡ true = (same_dst_iff info found).1 w in cc, rw b refl)
]

-- Once bound, a sender keeps its destination, its function and its ranks whatever the naming
-- service says: a refresh succeeds, and either the naming service found a worker that agrees with
-- the destination in the nine fields of `SameWorker`, and the refresh takes that worker's address
-- and changes nothing else, or it found no such worker, and the refresh changes nothing
-- (`Refreshed`).
pub refresh-bound :
    (env : Env) (src info : WorkerInfo) (found : Option WorkerInfo) (c : TaskContext)
    → c.dstinfo ≡ some info
    → Refreshed info found c (refresh_dst_info env src found c)
refresh-bound env src info found c e =
    subst (λ (b : TaskContext). Refreshed info found b (refresh_dst_info env src found b))
      (λ i. record {
        tpkind = c.tpkind;
        parse_block = c.parse_block;
        dstinfo = sym e i;
        ch = c.ch;
        valid_ranks = c.valid_ranks;
        kvt_tp_size = c.kvt_tp_size;
        kvt_tp_rank = c.kvt_tp_rank;
      })
      (bound_step env src info found c)

-- The first refresh of a sender, with `ranks` the ranks that send.
abbrev pub bound : WorkerInfo → WorkerInfo → List Bool → TaskContext
bound src info ranks =
    with_ranks (with_dst new_context info) ranks (count ranks)
      (kvt_tp_rank_of ranks src.worker_tp_rank)

pub refresh-first :
    (env : Env) (src info : WorkerInfo) (ranks : List Bool)
    → compute_valid_ranks_pd env src.engine_tp_size info.engine_tp_size src.num_kv_heads ≡ ok ranks
    → refresh_dst_info env src (some info) new_context
      ≡ choose
          (select env.cache_shape src info (selection_p_tp env.cache_shape src (count ranks)))
          (bound src info ranks)
unfolding refresh_dst_info bind_dst bind_ranks ◌>>=◌
refresh-first env src info ranks e =
    rw (refresh_dst_info, bind_dst, e, bind_ranks, assert_ok env.asserts true refl) refl

-- Where no function is for the shape and the sizes, the first refresh throws, but it leaves the
-- sender bound: every later refresh succeeds, whatever the naming service says, and `parse_block`
-- is still the null pointer.
pub refresh-unsupported :
    (env : Env) (src info : WorkerInfo) (ranks : List Bool) (found : Option WorkerInfo)
    → compute_valid_ranks_pd env src.engine_tp_size info.engine_tp_size src.num_kv_heads ≡ ok ranks
    → select env.cache_shape src info (selection_p_tp env.cache_shape src (count ranks)) ≡ none
    → ((refresh_dst_info env src (some info) new_context).1 ≡ err Error.runtime_error)
      × ((refresh_dst_info env src found (refresh_dst_info env src (some info) new_context).0).1
          ≡ ok tt)
      × ((refresh_dst_info env src found
            (refresh_dst_info env src (some info) new_context).0).0.parse_block
          ≡ none)
unfolding choose
refresh-unsupported env src info ranks found e none_ =
    let first : refresh_dst_info env src (some info) new_context
        ≡ (bound src info ranks, err Error.runtime_error) =
      refresh-first env src info ranks e ∙ rw none_ refl in
    rw first (elim (refresh-bound env src info found (bound src info ranks) refl) [
      | inl (from, _, _, again) ↦ rw again (refl, refl, refl)
      | inr (_, again) ↦ rw again (refl, refl, refl)
    ])
