-- ===== src/Shape/Safety.antt =====
-- Whatever the generators of kvtransfer/src/parse_block_ragged.cpp, parse_block_flash.cpp and
-- parse_block_dpsk.cpp leave in `send_blocks` lies within the two layers of its cache tensor.
use llumnix_kv.Base.{
  ◌>>=◌, ℕ, zero, suc, ◌*◌, ◌^◌, ◌<◌, ◌≡◌, refl, sym, ap, ◌∙◌, subst, Bool, true, false, List, [],
  ◌∷◌, ◌++◌, ◌-◌, take, replicate, for_range, length, get_or, set, u64, if◌then◌else◌, Result, ok,
  at, index, All, Ensures, Ensures-ok, Ensures-bind, Ensures-range, >>=-eq-ok, arith,
}
use llumnix_kv.Env.{Env}
use llumnix_kv.Types.{IpcBlock, WorkerInfo}
use llumnix_kv.Bounds.{IpcBlockBounds, checked_layer_capacity, make_ipc_block_bounds}
use llumnix_kv.Bounds.Checked.{IsBounds, InBounds}
use llumnix_kv.Parse.Safety.{Within, append-Within}
use llumnix_kv.Shape.{SendBlocks, resize}
use llumnix_kv.Shape.Ragged.{append_v}

checked_layer_capacity-small :
    (info : WorkerInfo) (i n : ℕ) → checked_layer_capacity info i ≡ ok n → n < 2 ^ 64
unfolding checked_layer_capacity
checked_layer_capacity-small info i n e =
    let (_, _, e₁) = >>=-eq-ok _ _ e in
    let (size, _, e₂) = >>=-eq-ok (index info.block_sizes i) _ e₁ in
    let (_, _, e₃) = >>=-eq-ok _ _ e₂ in
    let e₄ : u64 (size * info.layer_num_blocks) ≡ n = cc in omega arith

-- Bounds that are made are bounds.
pub make_ipc_block_bounds-IsBounds :
    (env : Env) (src dst : WorkerInfo) (i : ℕ) (bounds : IpcBlockBounds)
    → make_ipc_block_bounds env src dst i ≡ ok bounds
    → IsBounds bounds
unfolding make_ipc_block_bounds
make_ipc_block_bounds-IsBounds env src dst i bounds e =
    let (s, e₁, e₂) = >>=-eq-ok (checked_layer_capacity src i) _ e in
    let (d, e₃, e₄) = >>=-eq-ok (checked_layer_capacity dst i) _ e₂ in
    let b : record {
      src_capacity = s;
      dst_capacity = d;
      src_length_scale = if env.bf162fp8_conversion then 2 else 1;
      cache_idx = i;
    }
        ≡ bounds =
      cc in
    subst IsBounds b (record {
      scale = positive env.bf162fp8_conversion;
      src_small = checked_layer_capacity-small src i s e₁;
      dst_small = checked_layer_capacity-small dst i d e₃;
    })
  where
    positive : (b : Bool) → 0 < (if b then 2 else 1)
    positive true = omega arith
    positive false = omega arith

-- Reads and writes of the list of tensors.
pub at_get {ℓ} : {A : Type ℓ} (xs : List A) (i : ℕ) (d x : A) → at xs i ≡ ok x → x ≡ get_or xs i d
unfolding at
at_get [] i d x e = absurd (cc)
at_get (y ∷ xs) zero d x e = cc
at_get (y ∷ xs) (suc i) d x e = at_get xs i d x e

pub index_get {ℓ} :
    {A : Type ℓ} (xs : List A) (i : ℕ) (d x : A) → index xs i ≡ ok x → x ≡ get_or xs i d
unfolding index
index_get [] i d x e = absurd (cc)
index_get (y ∷ xs) zero d x e = cc
index_get (y ∷ xs) (suc i) d x e = index_get xs i d x e

set_keeps {ℓ κ} :
    {A : Type ℓ} (P : A → Type κ) (xs : List A) (j i : ℕ) (v d : A)
    → (i ≡ j → P v)
    → P (get_or xs i d)
    → P (get_or (set xs j v) i d)
set_keeps P [] j i v d h k = k
set_keeps P (x ∷ xs) zero zero v d h k = h refl
set_keeps P (x ∷ xs) zero (suc i) v d h k = k
set_keeps P (x ∷ xs) (suc j) zero v d h k = k
set_keeps P (x ∷ xs) (suc j) (suc i) v d h k = set_keeps P xs j i v d (λ e. h (ap suc e)) k

get_or-replicate {ℓ} : {A : Type ℓ} (n i : ℕ) → get_or (replicate {A = List A} n []) i [] ≡ []
get_or-replicate zero i = refl
get_or-replicate (suc n) zero = refl
get_or-replicate (suc n) (suc i) = get_or-replicate n i

pub resize_keeps {ℓ κ} :
    {A : Type ℓ} (P : List A → Type κ) (n : ℕ) (xs : List (List A)) (i : ℕ)
    → P []
    → P (get_or xs i [])
    → P (get_or (resize n xs) i [])
resize_keeps P zero xs i z k = subst P (sym (get_or-replicate (0 - length xs) i)) z
resize_keeps P (suc n) [] i z k = subst P (sym (get_or-replicate (suc n - 0) i)) z
resize_keeps P (suc n) (x ∷ xs) zero z k = k
resize_keeps P (suc n) (x ∷ xs) (suc i) z k =
    subst (λ (m : ℕ). P (get_or (take n xs ++ replicate m []) i [])) (omega arith)
      (resize_keeps P n xs i z k)

-- One cache tensor of a layer, `i`, and its bounds.
module _ (env : Env) (src dst : WorkerInfo) (i : ℕ) (bounds : IpcBlockBounds)
    (made : make_ipc_block_bounds env src dst i ≡ ok bounds) where
  abbrev pub Safe : SendBlocks → Type 0
  Safe sbs = All (InBounds bounds) (get_or sbs i [])

  -- What a round on tensor `j` writes back.
  module _ (sbs : SendBlocks) (j : ℕ) (blocks : List IpcBlock) (bj : IpcBlockBounds)
      (here : blocks ≡ get_or sbs j []) (made' : make_ipc_block_bounds env src dst j ≡ ok bj)
      (safe : Safe sbs) where
    same_bounds : i ≡ j → bounds ≡ bj
    same_bounds e =
        let e' : make_ipc_block_bounds env src dst j ≡ ok bounds =
          ap (make_ipc_block_bounds env src dst) (sym e) ∙ made in
        cc

    before : i ≡ j → All (InBounds bj) blocks
    before e =
        subst (All (InBounds bj)) (ap (λ (k : ℕ). get_or sbs k []) e ∙ sym here)
          (subst (λ (b : IpcBlockBounds). All (InBounds b) (get_or sbs i [])) (same_bounds e) safe)

    write : (out : List IpcBlock) → (i ≡ j → All (InBounds bj) out) → Safe (set sbs j out)
    write out h =
        set_keeps (All (InBounds bounds)) sbs j i out []
          (λ e. subst (λ (b : IpcBlockBounds). All (InBounds b) out) (sym (same_bounds e)) (h e))
          safe

    -- Blocks that are within the bounds if they are of tensor `i`.
    abbrev pub Fine : List IpcBlock → Type 0
    Fine bs = i ≡ j → All (InBounds bj) bs

    pub blocks-Fine : Fine blocks
    blocks-Fine = before

    pub step-Fine :
        (bs : List IpcBlock) (gen : Result (List IpcBlock))
        → (IsBounds bj → All (InBounds bj) bs → Ensures (All (InBounds bj)) gen)
        → Fine bs
        → Ensures Fine gen
    step-Fine bs gen h f = record {
      holds = λ out run e.
          (h (make_ipc_block_bounds-IsBounds env src dst j bj made') (f e)).holds out run;
    }

    pub write-Safe : (out : List IpcBlock) → Fine out → Ensures Safe (ok (set sbs j out))
    write-Safe out f = Ensures-ok (write out f)

    pub cache_step :
        (gen : Result (List IpcBlock))
        → (IsBounds bj → All (InBounds bj) blocks → Ensures (All (InBounds bj)) gen)
        → Ensures Safe (gen >>= λ out. ok (set sbs j out))
    cache_step gen h = Ensures-bind λ out run. Ensures-ok (
        write out
          λ e. (h (make_ipc_block_bounds-IsBounds env src dst j bj made') (before e)).holds out run)

    pub cache_steps :
        (gen : Result (List IpcBlock)) (more : List IpcBlock → Result (List IpcBlock))
        → (IsBounds bj → All (InBounds bj) blocks → Ensures (All (InBounds bj)) gen)
        → (IsBounds bj
            → (ks : List IpcBlock) → All (InBounds bj) ks
            → Ensures (All (InBounds bj)) (more ks))
        → Ensures Safe (gen >>= λ ks. more ks >>= λ out. ok (set sbs j out))
    cache_steps gen more h k = Ensures-bind λ ks run. Ensures-bind λ out run'.
        let v = make_ipc_block_bounds-IsBounds env src dst j bj made' in
        Ensures-ok (write out λ e. (k v ks ((h v (before e)).holds ks run)).holds out run')

pub append_v-Within :
    {bounds : IpcBlockBounds} (v : IsBounds bounds) (env : Env) (p_k_size d_k_size : ℕ)
    (swap : Bool) (n i : ℕ) (ks : List IpcBlock)
    → Within v ks
    → Ensures (Within v) (for_range n i (append_v env p_k_size d_k_size bounds swap) ks)
unfolding append_v
append_v-Within v env p_k_size d_k_size swap n i ks h =
    Ensures-range n i _ ks
      (λ j blocks k. Ensures-bind λ _ _. Ensures-bind λ _ _. append-Within v blocks _ _ _ k) h
