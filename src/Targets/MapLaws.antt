-- ===== src/Targets/MapLaws.antt =====
-- What `enter` and `try_pop_map` (kvtransfer/src/client.cpp) do to `peek`.
use llumnix_kv.Base.{
  ℕ, zero, suc, ◌+◌, ◌-◌, ◌^◌, ◌≤◌, ◌<◌, ◌≡◌, refl, sym, ap, ◌∙◌, ◌↔◌, Bool, true, false, ◌&&◌, [],
  ◌∷◌, ◌++◌, length, set, take, replicate, length-append, length-replicate, Option, none, some, leb,
  get_or, ◌==◌, ==_iff, u32_lem, inl, inr, at, lt→ltb, if◌then◌else◌, Bool-cases, ok, ◌>>=◌,
  assert_ok, at_ok, arith,
}
use llumnix_kv.Env.{Env}
use llumnix_kv.Types.{Bytes}
use llumnix_kv.Targets.Map.{
  bytes_eq, Slots, TargetMap, slots_of, pop_found, find, put, erase, slot, peek, has_value, write,
  grow, enter, any_value, try_pop_map,
}

pub bytes_eq_iff : (xs ys : Bytes) → (bytes_eq xs ys ≡ true) ↔ (xs ≡ ys)
bytes_eq_iff [] [] = (λ h. refl, λ h. refl)
bytes_eq_iff [] (y ∷ ys) = (λ h. absurd (cc), λ h. absurd (cc))
bytes_eq_iff (x ∷ xs) [] = (λ h. absurd (cc), λ h. absurd (cc))
bytes_eq_iff (x ∷ xs) (y ∷ ys) = ground (arith, ==_iff x y, bytes_eq_iff xs ys)

pub find-put :
    (i j : Bytes) (v : Slots) (m : TargetMap)
    → find j (put i v m) ≡ (if bytes_eq j i then some v else find j m)
unfolding find put
find-put i j v [] = refl
find-put i j v ((k, w) ∷ m) =
    ground (arith, bytes_eq_iff i k, bytes_eq_iff j k, bytes_eq_iff j i, find-put i j v m)

pub find-erase :
    (i j : Bytes) (m : TargetMap) → find j (erase i m) ≡ (if bytes_eq j i then none else find j m)
unfolding find erase
find-erase i j [] = ground arith
find-erase i j ((k, w) ∷ m) =
    ground (arith, bytes_eq_iff i k, bytes_eq_iff j k, bytes_eq_iff j i, find-erase i j m)

slot-nones : (v : Slots) (k w : ℕ) → slot (v ++ replicate k none) w ≡ slot v w
unfolding slot
slot-nones [] zero w = refl
slot-nones [] (suc k) zero = refl
slot-nones [] (suc k) (suc w) = slot-nones [] k w
slot-nones (o ∷ v) k zero = refl
slot-nones (o ∷ v) k (suc w) = slot-nones v k w

take_all : (v : Slots) (n : ℕ) → length v ≤ n → take n v ≡ v
take_all [] zero h = refl
take_all [] (suc n) h = refl
take_all (o ∷ v) zero h = absurd (omega arith)
take_all (o ∷ v) (suc n) h = ap (◌∷◌ o) (take_all v n (omega arith))

slot-set :
    (v : Slots) (i w : ℕ) (o : Option ℕ)
    → i < length v
    → slot (set v i o) w ≡ (if w == i then o else slot v w)
unfolding slot
slot-set [] i w o h = absurd (omega arith)
slot-set (x ∷ v) zero zero o h = refl
slot-set (x ∷ v) zero (suc w) o h = ground arith
slot-set (x ∷ v) (suc i) zero o h = ground arith
slot-set (x ∷ v) (suc i) (suc w) o h = slot-set v i w o (omega arith) ∙ ground arith

slot-beyond : (v : Slots) (w : ℕ) → length v ≤ w → slot v w ≡ none
unfolding slot
slot-beyond [] w h = refl
slot-beyond (o ∷ v) zero h = absurd (omega arith)
slot-beyond (o ∷ v) (suc w) h = slot-beyond v w (omega arith)

no_value : (v : Slots) (w : ℕ) → any_value v ≡ false → slot v w ≡ none
unfolding slot any_value
no_value [] w h = refl
no_value (none ∷ v) zero h = refl
no_value (none ∷ v) (suc w) h = no_value v w h
no_value (some p ∷ v) w h = absurd (cc)

abbrev pub same_key : Bytes → ℕ → Bytes → ℕ → Bool
same_key j x i w = bytes_eq j i && x == w

-- What stands at an instance after a write.
pub peek-put :
    (i j : Bytes) (v : Slots) (m : TargetMap) (x : ℕ)
    → peek (put i v m) j x ≡ (if bytes_eq j i then slot v x else peek m j x)
unfolding peek
peek-put i j v m x =
    rw (find-put i j v m)
      (elim (Bool-cases (bytes_eq j i)) [ inl e ↦ rw e refl | inr e ↦ rw e refl ])

pub peek-erase :
    (i j : Bytes) (m : TargetMap) (x : ℕ)
    → peek (erase i m) j x ≡ (if bytes_eq j i then none else peek m j x)
unfolding peek slot
peek-erase i j m x =
    rw (find-erase i j m)
      (elim (Bool-cases (bytes_eq j i)) [ inl e ↦ rw e refl | inr e ↦ rw e refl ])

slot-grow : (v : Slots) (w x : ℕ) → w + 1 < 2 ^ 32 → slot (grow v w) x ≡ slot v x
unfolding grow
slot-grow v w x small = elim (Bool-cases (leb (length v) w)) [
  | inl b ↦
      let short : length v ≤ w = ground arith in
      rw (b, u32_lem small, take_all v (w + 1) (omega arith)) (slot-nones v (w + 1 - length v) x)
  | inr b ↦ rw b refl
]

length-grow : (v : Slots) (w : ℕ) → w + 1 < 2 ^ 32 → w < length (grow v w)
unfolding grow
length-grow v w small = elim (Bool-cases (leb (length v) w)) [
  | inl b ↦
      let short : length v ≤ w = ground arith in
      rw
        (
          b,
          u32_lem small,
          take_all v (w + 1) (omega arith),
          length-append v (replicate (w + 1 - length v) none),
          length-replicate {A = Option ℕ} (w + 1 - length v) none,
        )
        (omega arith)
  | inr b ↦ rw b (ground arith)
]

get_or-slot : (v : Slots) (w : ℕ) → get_or v w none ≡ slot v w
unfolding slot
get_or-slot [] w = refl
get_or-slot (o ∷ v) zero = refl
get_or-slot (o ∷ v) (suc w) = get_or-slot v w

pub record Entered (env : Env) (m : TargetMap) (i : Bytes) (w place : ℕ) : Type 0 where
  pub map : TargetMap
  pub runs : enter env m i w place ≡ ok map
  pub peeks :
      (j : Bytes) (x : ℕ) → peek map j x ≡ (if same_key j x i w then some place else peek m j x)

-- The read in the `assert` of `create`.
read_none :
    (b : Bool) (v : Slots) (w : ℕ)
    → w < length v
    → slot v w ≡ none
    → (if b then at v w else ok none) ≡ ok none
read_none true v w h e = at_ok v w none h ∙ ap ok (get_or-slot v w ∙ e)
read_none false v w h e = refl

write_ok : (v : Slots) (w : ℕ) (o : Option ℕ) → w < length v → write v w o ≡ ok (set v w o)
unfolding write
write_ok v w o h = rw (lt→ltb w (length v) h) refl

-- Where nothing stands at the key, `enter` succeeds, and changes nothing else.
pub enter_total :
    (env : Env) (m : TargetMap) (i : Bytes) (w place : ℕ)
    → w + 1 < 2 ^ 32
    → peek m i w ≡ none
    → Entered env m i w place
unfolding enter ◌>>=◌ peek
enter_total env m i w place small free =
    let old = slots_of (find i m) in
    let inside : w < length (grow old w) = length-grow old w small in
    record {
      map = put i (set (grow old w) w (some place)) m;
      runs =
          rw
            (
              read_none env.asserts (grow old w) w inside (slot-grow old w w small ∙ free),
              assert_ok env.asserts true refl,
              write_ok (grow old w) w (some place) inside,
            )
            refl;
      peeks = λ j x.
          peek-put i j (set (grow old w) w (some place)) m x
          ∙ rw (slot-set (grow old w) w x (some place) inside, slot-grow old w x small)
              (joined j x (bytes_eq j i) (bytes_eq_iff j i).0 refl);
    }
  where
    joined :
        (j : Bytes) (x : ℕ) (b : Bool)
        → (b ≡ true → j ≡ i)
        → bytes_eq j i ≡ b
        → (if b
            then if x == w then some place else slot (slots_of (find i m)) x
            else slot (slots_of (find j m)) x)
          ≡ (if b && x == w then some place else slot (slots_of (find j m)) x)
    joined j x true same e = rw (same refl) refl
    joined j x false same e = refl

pub record Popped (env : Env) (m : TargetMap) (i : Bytes) (w : ℕ) : Type 0 where
  pub result : TargetMap × ℕ
  pub runs : try_pop_map env m i w ≡ ok result
  pub peeks :
      (j : Bytes) (x : ℕ) → peek result.0 j x ≡ (if same_key j x i w then none else peek m j x)

slot-inside : (v : Slots) (w p : ℕ) → slot v w ≡ some p → leb (length v) w ≡ false
slot-inside v w p h = elim (Bool-cases (leb (length v) w)) [
  | inl b ↦ let e : slot v w ≡ none = slot-beyond v w (ground arith) in absurd (cc)
  | inr b ↦ b
]

pop_found_total :
    (env : Env) (m : TargetMap) (i : Bytes) (w p : ℕ) (found : Option Slots)
    → find i m ≡ found
    → slot (slots_of found) w ≡ some p
    → Popped env m i w
unfolding pop_found try_pop_map ◌>>=◌ peek slot
pop_found_total env m i w p none e h = absurd (cc)
pop_found_total env m i w p (some v) e h = elim (Bool-cases (any_value (set v w none))) [
  | inl b ↦ record {
    result = (put i (set v w none) m, 1);
    runs = rw (e, outside, assert_ok env.asserts (has_value (slot v w)) value, b) refl;
    peeks = λ j x.
        peek-put i j (set v w none) m x
        ∙ rw (slot-set v w x none inside) (joined j x (bytes_eq j i) (bytes_eq_iff j i).0 refl);
  }
  | inr b ↦ record {
    result = (erase i m, 2);
    runs = rw (e, outside, assert_ok env.asserts (has_value (slot v w)) value, b) refl;
    peeks = λ j x. peek-erase i j m x ∙ gone j x b (bytes_eq j i) (bytes_eq_iff j i).0 refl;
  }
]
  where
    outside : leb (length v) w ≡ false
    outside = slot-inside v w p h

    inside : w < length v
    inside = let o = outside in ground arith

    value : has_value (slot v w) ≡ true
    value = rw h refl

    joined :
        (j : Bytes) (x : ℕ) (b : Bool)
        → (b ≡ true → j ≡ i)
        → bytes_eq j i ≡ b
        → (if b then if x == w then none else slot v x else slot (slots_of (find j m)) x)
          ≡ (if b && x == w then none else slot (slots_of (find j m)) x)
    joined j x true same q = rw (same refl, e) refl
    joined j x false same q = refl

    gone :
        (j : Bytes) (x : ℕ)
        → any_value (set v w none) ≡ false
        → (b : Bool) → (b ≡ true → j ≡ i)
        → bytes_eq j i ≡ b
        → (if b then none else slot (slots_of (find j m)) x)
          ≡ (if b && x == w then none else slot (slots_of (find j m)) x)
    gone j x empty true same q =
        sym (no_value (set v w none) x empty) ∙ slot-set v w x none inside ∙ rw (same refl, e) refl
    gone j x empty false same q = refl

-- Where a node stands at the key, `try_pop_map` takes it out, and changes nothing else.
pub pop_total :
    (env : Env) (m : TargetMap) (i : Bytes) (w p : ℕ) → peek m i w ≡ some p → Popped env m i w
unfolding peek
pop_total env m i w p h = pop_found_total env m i w p (find i m) refl h
