-- ===== src/Channel/Totals.antt =====
-- The four results of `merge_interval` (kvtransfer/src/channel.cpp).
use mathlib.Core.List.{Mem, mem-cons_self, mem-cons_of_mem}
use llumnix_kv.Base.{
  ◌≤◌, ◌⊎◌, subst, size_max, min, max, ℕ, zero, suc, ◌+◌, ◌^◌, ◌<◌, ◌≡◌, refl, sym, ap, append-nil,
  ◌∙◌, inl, inr, false, List, [], ◌∷◌, ◌++◌, push_back, u64, u64_lem, ◌==◌, if◌then◌else◌,
  Bool-cases, All, All-append, length, length-append, arith,
}
use llumnix_kv.Types.{IpcBlock}
use llumnix_kv.Copies.{bytes, span}
use llumnix_kv.Channel.{
  can_merge, Sizes, no_sizes, note, with_length, merge_from, merge_sorted, merge_interval,
}
use llumnix_kv.Channel.Merge.{Bounded, can_merge_adjacent}

-- The lengths of the blocks that are left, an emptied one not counted.
abbrev pub lengths_left : List IpcBlock → List ℕ
lengths_left [] = []
lengths_left (b ∷ bs) = if b.length == 0 then lengths_left bs else b.length ∷ lengths_left bs

abbrev pub sum : List ℕ → ℕ
sum [] = 0
sum (n ∷ ns) = n + sum ns

-- The sizes of copies of the lengths `ns`. With none, the least is the greatest `size_t` and the
-- greatest is 0.
pub record IsTotals (ns : List ℕ) (s : Sizes) : Type 0 where
  pub below : All (λ n. s.min_size ≤ n) ns
  pub least : (s.min_size ≡ size_max) ⊎ Mem s.min_size ns
  pub above : All (λ n. n ≤ s.max_size) ns
  pub greatest : (s.max_size ≡ 0) ⊎ Mem s.max_size ns
  pub total : s.total_size ≡ u64 (sum ns)
  pub number : s.cnt ≡ u64 (length ns)

-- The code's account of one length after another.
noted : List ℕ → Sizes → Sizes
noted [] s = s
noted (n ∷ ns) s = noted ns (note s n)

noted-below :
    (ns : List ℕ) (s : Sizes)
    → ((noted ns s).min_size ≤ s.min_size) × All (λ n. (noted ns s).min_size ≤ n) ns
unfolding noted note
noted-below [] s = (omega arith, tt)
noted-below (n ∷ ns) s =
    let (le, each) = noted-below ns (note s n) in (omega (arith, le), (omega (arith, le), each))

noted-above :
    (ns : List ℕ) (s : Sizes)
    → (s.max_size ≤ (noted ns s).max_size) × All (λ n. n ≤ (noted ns s).max_size) ns
unfolding noted note
noted-above [] s = (omega arith, tt)
noted-above (n ∷ ns) s =
    let (le, each) = noted-above ns (note s n) in (omega (arith, le), (omega (arith, le), each))

-- What is one of two numbers that come before the list.
mem_either :
    (m x y n : ℕ) (ns : List ℕ) → (x ≡ y) ⊎ (x ≡ n) → (m ≡ x) ⊎ Mem m ns → (m ≡ y) ⊎ Mem m (n ∷ ns)
mem_either m x y n ns (inl e) (inl h) = inl (h ∙ e)
mem_either m x y n ns (inr e) (inl h) =
    inr (subst (λ (k : ℕ). Mem k (n ∷ ns)) (sym (h ∙ e)) mem-cons_self)
mem_either m x y n ns _ (inr h) = inr (mem-cons_of_mem n h)

noted-least :
    (ns : List ℕ) (s : Sizes) → ((noted ns s).min_size ≡ s.min_size) ⊎ Mem (noted ns s).min_size ns
unfolding noted note
noted-least [] s = inl refl
noted-least (n ∷ ns) s =
    mem_either _ (min s.min_size n) s.min_size n ns (ground arith) (noted-least ns (note s n))

noted-greatest :
    (ns : List ℕ) (s : Sizes) → ((noted ns s).max_size ≡ s.max_size) ⊎ Mem (noted ns s).max_size ns
unfolding noted note
noted-greatest [] s = inl refl
noted-greatest (n ∷ ns) s =
    mem_either _ (max s.max_size n) s.max_size n ns (ground arith) (noted-greatest ns (note s n))

noted-total :
    (ns : List ℕ) (s : Sizes)
    → s.total_size < 2 ^ 64
    → (noted ns s).total_size ≡ u64 (s.total_size + sum ns)
unfolding noted note
noted-total [] s h = omega arith
noted-total (n ∷ ns) s h = noted-total ns (note s n) (omega arith) ∙ omega arith

noted-number :
    (ns : List ℕ) (s : Sizes) → s.cnt < 2 ^ 64 → (noted ns s).cnt ≡ u64 (s.cnt + length ns)
unfolding noted note
noted-number [] s h = omega arith
noted-number (n ∷ ns) s h = noted-number ns (note s n) (omega arith) ∙ omega arith

noted-IsTotals : (ns : List ℕ) → IsTotals ns (noted ns no_sizes)
noted-IsTotals ns = record {
  below = (noted-below ns no_sizes).1;
  least = noted-least ns no_sizes;
  above = (noted-above ns no_sizes).1;
  greatest = noted-greatest ns no_sizes;
  total = noted-total ns no_sizes (omega arith) ∙ omega arith;
  number = noted-number ns no_sizes (omega arith) ∙ omega arith;
}

abbrev sizes_of : List IpcBlock → Sizes → Sizes
sizes_of bs s = noted (lengths_left bs) s

abbrev pub Filled : IpcBlock → Type 0
Filled b = 0 < b.length

Emptied : IpcBlock → Type 0
Emptied b = b.length ≡ 0

sizes_of-Emptied :
    (zeroed rest : List IpcBlock) (s : Sizes)
    → All Emptied zeroed
    → sizes_of (zeroed ++ rest) s ≡ sizes_of rest s
unfolding Emptied
sizes_of-Emptied [] rest s h = refl
sizes_of-Emptied (b ∷ zeroed) rest s h = rw (h.0) (sizes_of-Emptied zeroed rest s h.1)

sizes_of-Filled :
    (b : IpcBlock) (bs : List IpcBlock) (s : Sizes)
    → Filled b
    → sizes_of (b ∷ bs) s ≡ sizes_of bs (note s b.length)
unfolding noted
sizes_of-Filled b bs s h = let e : (b.length == 0) ≡ false = ground arith in rw e refl

-- The sizes that the loop returns are those of the blocks that it leaves.
merge_from-sizes :
    (rest : List IpcBlock) (pre : IpcBlock) (zeroed : List IpcBlock) (s : Sizes)
    → Filled pre
    → Bounded pre
    → All Filled rest
    → All Bounded rest
    → All Emptied zeroed
    → (merge_from pre zeroed rest s).1 ≡ sizes_of (merge_from pre zeroed rest s).0 s
unfolding merge_from Emptied noted
merge_from-sizes [] pre zeroed s f v fs vs z = sym (
    sizes_of-Filled pre zeroed s f
    ∙ ap (λ (l : List IpcBlock). sizes_of l (note s pre.length)) (sym (append-nil zeroed))
    ∙ sizes_of-Emptied zeroed [] (note s pre.length) z)
merge_from-sizes (c ∷ rest) pre zeroed s f v fs vs z = elim (Bool-cases (can_merge pre c)) [
  | inl joined ↦
      let (es, ed) = can_merge_adjacent pre c v joined in
      let fit : pre.length + c.length < 2 ^ 64 = omega (arith, vs.0.src, es) in
      rw (joined, u64_lem fit)
        (merge_from-sizes rest (with_length pre (pre.length + c.length))
          (push_back zeroed (with_length c 0)) s (omega (arith, f))
          (record { src = omega (arith, vs.0.src, es); dst = omega (arith, vs.0.dst, ed) }) fs.1
          vs.1 (All-append Emptied zeroed (with_length c 0 ∷ []) z (refl, tt)))
  | inr apart ↦ rw apart (
      merge_from-sizes rest c [] (note s pre.length) fs.0 vs.0 fs.1 vs.1 tt
      ∙ let out = (merge_from c [] rest (note s pre.length)).0 in
        sym (
          sizes_of-Filled pre (zeroed ++ out) s f
          ∙ sizes_of-Emptied zeroed out (note s pre.length) z))
]

length-span : (x y n : ℕ) → length (span x y n) ≡ n
unfolding span
length-span x y zero = refl
length-span x y (suc n) = ap suc (length-span (x + 1) (y + 1) n)

-- The total, as the code adds it up.
merge_from-total :
    (rest : List IpcBlock) (pre : IpcBlock) (zeroed : List IpcBlock) (s : Sizes)
    → Bounded pre
    → All Bounded rest
    → (merge_from pre zeroed rest s).1.total_size
      ≡ u64 (s.total_size + (pre.length + length (bytes rest)))
unfolding merge_from note bytes
merge_from-total [] pre zeroed s v vs = omega arith
merge_from-total (c ∷ rest) pre zeroed s v vs =
    let more : length (bytes (c ∷ rest)) ≡ c.length + length (bytes rest) =
      length-append (span c.src_offset c.dst_offset c.length) (bytes rest)
      ∙ ap (λ (n : ℕ). n + length (bytes rest)) (length-span c.src_offset c.dst_offset c.length) in
    elim (Bool-cases (can_merge pre c)) [
      | inl joined ↦
          let (es, ed) = can_merge_adjacent pre c v joined in
          let fit : pre.length + c.length < 2 ^ 64 = omega (arith, vs.0.src, es) in
          rw (joined, u64_lem fit, more)
            (merge_from-total rest (with_length pre (pre.length + c.length))
                (push_back zeroed (with_length c 0)) s
                (record { src = omega (arith, vs.0.src, es); dst = omega (arith, vs.0.dst, ed) })
                vs.1
              ∙ omega arith)
      | inr apart ↦
          rw (apart, more) (merge_from-total rest c [] (note s pre.length) vs.0 vs.1 ∙ omega arith)
    ]

-- For a list of non-empty blocks, none of whose ends is past the 64 bits: of the four sizes that
-- `merge_interval` returns, the first is at most each length of a block it leaves non-empty, and is
-- one of them or 2^64 - 1; the second is at least each of them, and is one of them or 0; the third
-- and the fourth are their sum and their number, modulo 2^64 (`IsTotals`); and the third is, modulo
-- 2^64, the number of bytes that the sorted input copies.
pub merge_interval-sizes :
    (sort : List IpcBlock → List IpcBlock) (input : List IpcBlock)
    → All Filled (sort input)
    → All Bounded (sort input)
    → IsTotals (lengths_left (merge_interval sort input).0) (merge_interval sort input).1
      × ((merge_interval sort input).1.total_size ≡ u64 (length (bytes (sort input))))
unfolding merge_interval bytes noted
merge_interval-sizes sort input f v = sorted (sort input) f v
  where
    sorted :
        (l : List IpcBlock)
        → All Filled l
        → All Bounded l
        → IsTotals (lengths_left (merge_sorted l).0) (merge_sorted l).1
          × ((merge_sorted l).1.total_size ≡ u64 (length (bytes l)))
    sorted [] f v = (noted-IsTotals [], refl)
    sorted (b ∷ bs) f v = (
      subst (IsTotals (lengths_left (merge_from b [] bs no_sizes).0))
          (sym (merge_from-sizes bs b [] no_sizes f.0 v.0 f.1 v.1 tt))
          (noted-IsTotals (lengths_left (merge_from b [] bs no_sizes).0)),
      merge_from-total bs b [] no_sizes v.0 v.1
          ∙ let more : length (bytes (b ∷ bs)) ≡ b.length + length (bytes bs) =
              length-append (span b.src_offset b.dst_offset b.length) (bytes bs)
              ∙ ap (λ (n : ℕ). n + length (bytes bs))
                  (length-span b.src_offset b.dst_offset b.length) in
            omega arith,
    )
