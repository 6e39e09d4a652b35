-- ===== src/QuickSort/Sorted.antt =====
-- `quick_sort` of toxcore/misc_tools.h sorts.
use project_tox_core.Prelude.{
  ℕ, zero, suc, ◌+◌, ◌-◌, ◌/◌, ◌≤◌, ◌<◌, ◌≡◌, inr, refl, ap, sym, subst, false, List, [], ◌∷◌, ◌++◌,
  arith, length, get_or, take, drop, length-take, length-drop, take_append_drop, take_all, All,
}
use Prim.Native.Nat.{Ordering}
use mathlib.Core.List.{Perm, Permᴰ}
use mathlib.Core.List.Permᴰ
use project_tox_core.QuickSort.{is_gt, partition, sort_parts, quick_sort}
use project_tox_core.QuickSort.Order.{IsOrder, IsSorted, All-append, All-mono, All-perm, IsBelow}
use project_tox_core.QuickSort.Partition.{Parted, partition_lem}

module _ {ℓ} {A : Type ℓ} where
  All-take :
      (P : A → Type 0) (d : A) (xs : List A) (n : ℕ)
      → ((i : ℕ) → i < n → i < length xs → P (get_or xs i d))
      → All P (take n xs)
  All-take P d xs zero h = tt
  All-take P d [] (suc n) h = tt
  All-take P d (x ∷ xs) (suc n) h = (
    h 0 (omega arith) (omega arith),
    All-take P d xs n (λ i k m. h (suc i) (omega arith) (omega arith)),
  )

  All-drop :
      (P : A → Type 0) (d : A) (xs : List A) (n : ℕ)
      → ((i : ℕ) → n ≤ i → i < length xs → P (get_or xs i d))
      → All P (drop n xs)
  All-drop P d [] zero h = tt
  All-drop P d [] (suc n) h = tt
  All-drop P d (x ∷ xs) zero h = (
    h 0 (omega arith) (omega arith),
    All-drop P d xs zero (λ i k m. h (suc i) (omega arith) (omega arith)),
  )
  All-drop P d (x ∷ xs) (suc n) h =
      All-drop P d xs n (λ i k m. h (suc i) (omega arith) (omega arith))

  All-between :
      (P : A → Type 0) (d : A) (xs : List A) (n m : ℕ)
      → ((i : ℕ) → n ≤ i → i < n + m → i < length xs → P (get_or xs i d))
      → All P (take m (drop n xs))
  All-between P d xs zero m h = All-take P d xs m (λ i k j. h i (omega arith) (omega arith) j)
  All-between P d [] (suc n) m h = All-take P d [] m (λ i k j. absurd (omega arith))
  All-between P d (x ∷ xs) (suc n) m h =
      All-between P d xs n m (λ i k j q. h (suc i) (omega arith) (omega arith) (omega arith))

  default_irrelevant :
      (d e : A) (xs : List A) (i : ℕ) → i < length xs → get_or xs i d ≡ get_or xs i e
  default_irrelevant d e [] i h = absurd (omega arith)
  default_irrelevant d e (x ∷ xs) zero h = refl
  default_irrelevant d e (x ∷ xs) (suc i) h = default_irrelevant d e xs i (omega arith)

  -- The three parts that `sort_parts` makes.
  three_parts :
      (xs : List A) (l r : ℕ) → r ≤ l → take r xs ++ (take (l - r) (drop r xs) ++ drop l xs) ≡ xs
  three_parts xs l zero h =
      subst (λ n. take n xs ++ drop l xs ≡ xs) (omega arith) (take_append_drop l xs)
  three_parts xs zero (suc r) h = absurd (omega arith)
  three_parts [] (suc l) (suc r) h = ap (λ t. t ++ []) (take_all (suc l - suc r) [] (omega arith))
  three_parts (x ∷ xs) (suc l) (suc r) h =
      subst (λ n. x ∷ (take r xs ++ (take n (drop r xs) ++ drop l xs)) ≡ x ∷ xs) (omega arith)
        (ap (λ t. x ∷ t) (three_parts xs l r (omega arith)))

module _ {ℓ} {A : Type ℓ} (cmpfn : A → A → Ordering) (o : IsOrder cmpfn) where
  IsSorted-append :
      (xs ys : List A)
      → IsSorted cmpfn xs
      → IsSorted cmpfn ys
      → IsBelow cmpfn xs ys
      → IsSorted cmpfn (xs ++ ys)
  IsSorted-append [] ys hx hy h = hy
  IsSorted-append (x ∷ xs) ys hx hy h = (
    All-append (λ y. is_gt (cmpfn x y) ≡ false) xs ys hx.0 h.0,
    IsSorted-append xs ys hx.1 hy h.1,
  )

  module _ (p : A) where
    abbrev AtMost : A → Type 0
    AtMost a = is_gt (cmpfn a p) ≡ false

    abbrev AtLeast : A → Type 0
    AtLeast a = is_gt (cmpfn p a) ≡ false

    around : (xs ys : List A) → All AtMost xs → All AtLeast ys → IsBelow cmpfn xs ys
    around [] ys hx hy = tt
    around (x ∷ xs) ys hx hy = (
      All-mono AtLeast (λ y. is_gt (cmpfn x y) ≡ false) ys (λ y k. o.trans x p y hx.0 k) hy,
      around xs ys hx.1 hy,
    )

    pivots-IsSorted : (xs : List A) → All AtMost xs → All AtLeast xs → IsSorted cmpfn xs
    pivots-IsSorted [] hx hy = tt
    pivots-IsSorted (x ∷ xs) hx hy =
        ((around (x ∷ []) xs (hx.0, tt) hy.1).0, pivots-IsSorted xs hx.1 hy.1)

    -- What `sort_parts` needs of the sort that it calls.
    abbrev SortsBelow : ℕ → (List A → List A) → Type ℓ
    SortsBelow n sort =
        (xs : List A) → length xs < n → Permᴰ (sort xs) xs × IsSorted cmpfn (sort xs)

    sort_parts_lem :
        (sort : List A → List A) (start arr : List A) (l r : ℕ)
        → SortsBelow (length start) sort
        → Parted cmpfn o p start (arr, l, r)
        → Permᴰ (sort_parts cmpfn sort (arr, l, r)) start
          × IsSorted cmpfn (sort_parts cmpfn sort (arr, l, r))
    unfolding sort_parts
    sort_parts_lem sort start arr l r below d =
        let xs = take r arr in
        let ys = take (l - r) (drop r arr) in
        let zs = drop l arr in
        let same : length arr ≡ length start = d.same_length in
        let met : r ≤ l = d.met in
        let s = d.split in
        let low_xs = All-take AtMost p arr r (λ i k j. s.low i (omega arith)) in
        let low_ys = All-between AtMost p arr r (l - r) (λ i k j q. s.low i (omega arith)) in
        let high_ys = All-between AtLeast p arr r (l - r) (λ i k j q. s.high i k q) in
        let high_zs = All-drop AtLeast p arr l (λ i k q. s.high i (omega arith) q) in
        let sx = below xs (omega (arith, length-take r arr, d.moved.1)) in
        let sz = below zs (omega (arith, length-drop l arr, d.moved.0, d.moved.1)) in
        let low = All-perm AtMost (Permᴰ.symm sx.0) low_xs in
        let high = All-perm AtLeast (Permᴰ.symm sz.0) high_zs in
        (
          Permᴰ.trans (Permᴰ.append_right (ys ++ sort zs) sx.0) (
              Permᴰ.trans (Permᴰ.append_left xs (Permᴰ.append_left ys sz.0))
                (subst (λ t. Permᴰ t start) (sym (three_parts arr l r met)) d.perm)),
          IsSorted-append (sort xs) (ys ++ sort zs) sx.1
              (IsSorted-append ys (sort zs) (pivots-IsSorted ys low_ys high_ys) sz.1
                (around ys (sort zs) low_ys high))
              (around (sort xs) (ys ++ sort zs) low (All-append AtLeast ys (sort zs) high_ys high)),
        )

  quick_sort_lem :
      (k : ℕ) (arr : List A)
      → length arr ≤ k
      → Permᴰ (quick_sort cmpfn k arr) arr × IsSorted cmpfn (quick_sort cmpfn k arr)
  unfolding quick_sort
  quick_sort_lem zero [] h = (Permᴰ.nil, tt)
  quick_sort_lem zero (x ∷ arr) h = absurd (omega arith)
  quick_sort_lem (suc k) [] h = (Permᴰ.nil, tt)
  quick_sort_lem (suc k) (x ∷ []) h = (Permᴰ.refl (x ∷ []), (tt, tt))
  quick_sort_lem (suc k) (x ∷ y ∷ rest) h =
      let arr = x ∷ y ∷ rest in
      let p = get_or arr (length arr / 2) x in
      sort_parts_lem p (quick_sort cmpfn k) arr
        (partition cmpfn (length arr) p arr 0 (length arr)).0
        (partition cmpfn (length arr) p arr 0 (length arr)).1
        (partition cmpfn (length arr) p arr 0 (length arr)).2
        (λ xs j. quick_sort_lem k xs (omega arith))
        (partition_lem cmpfn o p (length arr) arr arr 0 (length arr)
          record { low = λ i j. absurd (omega arith); high = λ i j q. absurd (omega arith) }
          (Permᴰ.refl arr) refl (omega arith) (omega arith) (omega arith)
          (inr (
            length arr / 2,
            omega arith,
            omega arith,
            default_irrelevant p x arr (length arr / 2) (omega arith),
          )))

  -- An array of `n` items is sorted with as much fuel as it has items: the result has the same
  -- items as often, and none is greater than a later one, where the comparison function orders.
  pub quick_sort_sorts :
      (k : ℕ) (arr : List A)
      → length arr ≤ k
      → Perm (quick_sort cmpfn k arr) arr × IsSorted cmpfn (quick_sort cmpfn k arr)
  quick_sort_sorts k arr h = let (perm, sorted) = quick_sort_lem k arr h in (∣ perm ∣₁, sorted)
