-- ===== src/QuickSort/Partition.antt =====
-- The loop of `quick_sort` of toxcore/misc_tools.h: what it leaves on both sides of its pointers.
use project_tox_core.Prelude.{
  ℕ, zero, suc, ◌+◌, ◌-◌, ◌≤◌, ◌<◌, ◌≡◌, ◌≢◌, ◌⊎◌, inl, inr, refl, ap, sym, ◌∙◌, subst, true, false,
  List, [], ◌∷◌, arith, ltb, length, get_or, set, length-set, get_or-set_self, get_or-set_ne,
  Bool-cases, ltb→lt, ℕ_discrete,
}
use Prim.Native.Nat.{Ordering}
use mathlib.Core.List.{Permᴰ}
use mathlib.Core.List.Permᴰ
use project_tox_core.QuickSort.{is_lt, is_gt, exchange, partition}
use project_tox_core.QuickSort.Order.{IsOrder, less_not_greater, equal_results}

true_ne_false : true ≡ false → ⊥
true_ne_false h = cc

module _ {ℓ} {A : Type ℓ} where
  -- A write in the place of an item trades the two.
  trade :
      (xs : List A) (j : ℕ) (v d : A) → j < length xs → Permᴰ (get_or xs j d ∷ set xs j v) (v ∷ xs)
  trade [] j v d h = absurd (omega arith)
  trade (x ∷ xs) zero v d h = Permᴰ.swap refl refl
  trade (x ∷ xs) (suc j) v d h =
      Permᴰ.trans (Permᴰ.swap refl refl)
        (Permᴰ.trans (Permᴰ.cons refl (trade xs j v d (omega arith))) (Permᴰ.swap refl refl))

  pub exchange_perm :
      (p : A) (arr : List A) (l r : ℕ) → l ≤ r → r < length arr → Permᴰ (exchange p arr l r) arr
  exchange_perm p [] l r h k = absurd (omega arith)
  exchange_perm p (x ∷ xs) zero zero h k = Permᴰ.refl (x ∷ xs)
  exchange_perm p (x ∷ xs) zero (suc r) h k = trade xs r x p (omega arith)
  exchange_perm p (x ∷ xs) (suc l) zero h k = absurd (omega arith)
  exchange_perm p (x ∷ xs) (suc l) (suc r) h k =
      Permᴰ.cons refl (exchange_perm p xs l r (omega arith) (omega arith))

  pub length-exchange : (p : A) (arr : List A) (l r : ℕ) → length (exchange p arr l r) ≡ length arr
  length-exchange p arr l r = length-set (set arr l (get_or arr r p)) r _ ∙ length-set arr l _

  exchange_right :
      (p : A) (arr : List A) (l r : ℕ)
      → r < length arr
      → get_or (exchange p arr l r) r p ≡ get_or arr l p
  exchange_right p arr l r h =
      get_or-set_self (set arr l (get_or arr r p)) r (get_or arr l p) p
        (omega (arith, length-set arr l (get_or arr r p)))

  exchange_left :
      (p : A) (arr : List A) (l r : ℕ)
      → l < r
      → r < length arr
      → get_or (exchange p arr l r) l p ≡ get_or arr r p
  exchange_left p arr l r h k =
      get_or-set_ne (set arr l (get_or arr r p)) r l (get_or arr l p) p (omega arith)
      ∙ get_or-set_self arr l (get_or arr r p) p (omega arith)

  exchange_other :
      (p : A) (arr : List A) (l r i : ℕ)
      → i ≢ l
      → i ≢ r
      → get_or (exchange p arr l r) i p ≡ get_or arr i p
  exchange_other p arr l r i nl nr =
      get_or-set_ne (set arr l (get_or arr r p)) r i (get_or arr l p) p (λ e. nr (sym e))
      ∙ get_or-set_ne arr l i (get_or arr r p) p (λ e. nl (sym e))

module _ {ℓ} {A : Type ℓ} (cmpfn : A → A → Ordering) (o : IsOrder cmpfn) (p : A) where
  -- Left of `l` nothing is greater than the pivot, from `r` on nothing is less.
  pub record IsSplit (arr : List A) (l r : ℕ) : Type 0 where
    pub low : (i : ℕ) → i < l → is_gt (cmpfn (get_or arr i p) p) ≡ false
    pub high : (i : ℕ) → r ≤ i → i < length arr → is_gt (cmpfn p (get_or arr i p)) ≡ false

  pub record Parted (start : List A) (result : List A × ℕ × ℕ) : Type ℓ where
    pub split : IsSplit result.0 result.1 result.2
    pub perm : Permᴰ result.0 start
    pub same_length : length result.0 ≡ length start
    pub met : result.2 ≤ result.1
    pub inside : result.1 ≤ length start
    pub moved : (1 ≤ result.1) × (result.2 < length start)

  -- Both pointers have moved, or the pivot itself stands between them.
  abbrev pub Progress : List A → ℕ → ℕ → Type ℓ
  Progress arr l r =
      ((1 ≤ l) × (r < length arr)) ⊎ ((m : ℕ) × (l ≤ m) × (m < r) × (get_or arr m p ≡ p))

  own : (is_lt (cmpfn p p) ≡ false) × (is_gt (cmpfn p p) ≡ false)
  own = equal_results (cmpfn p p) (sym (o.flip p p))

  advance :
      (arr : List A) (l r : ℕ)
      → IsSplit arr l r
      → is_lt (cmpfn (get_or arr l p) p) ≡ true
      → IsSplit arr (l + 1) r
  advance arr l r s less = record {
    low = λ i h. elim (ℕ_discrete i l) [
      | yes e ↦
          subst (λ j. is_gt (cmpfn (get_or arr j p) p) ≡ false) (sym e)
            (less_not_greater (cmpfn (get_or arr l p) p) less)
      | no ne ↦ s.low i (omega arith)
    ];
    high = s.high;
  }

  retreat :
      (arr : List A) (l r : ℕ)
      → IsSplit arr l r
      → is_gt (cmpfn (get_or arr (r - 1) p) p) ≡ true
      → IsSplit arr l (r - 1)
  retreat arr l r s greater = record {
    low = s.low;
    high = λ i h k. elim (ℕ_discrete i (r - 1)) [
      | yes e ↦
          subst (λ j. is_gt (cmpfn p (get_or arr j p)) ≡ false) (sym e)
            (less_not_greater (cmpfn p (get_or arr (r - 1) p))
              (sym (o.flip (get_or arr (r - 1) p) p) ∙ greater))
      | no ne ↦ s.high i (omega arith) k
    ];
  }

  -- What the exchange leaves in place `i`, by a property of the items.
  exchanged :
      (P : A → Type 0) (arr : List A) (l r i : ℕ)
      → l ≤ r
      → r < length arr
      → ((i ≡ l) → P (get_or arr r p))
      → ((i ≡ r) → P (get_or arr l p))
      → ((i ≢ l) → (i ≢ r) → P (get_or arr i p))
      → P (get_or (exchange p arr l r) i p)
  exchanged P arr l r i h k at_l at_r at_other = elim (ℕ_discrete i r) [
    | yes e ↦
        subst (λ j. P (get_or (exchange p arr l r) j p)) (sym e)
          (subst P (sym (exchange_right p arr l r k)) (at_r e))
    | no nr ↦ elim (ℕ_discrete i l) [
      | yes e ↦
          subst (λ j. P (get_or (exchange p arr l r) j p)) (sym e)
            (subst P (sym (exchange_left p arr l r (omega arith) k)) (at_l e))
      | no nl ↦ subst P (sym (exchange_other p arr l r i nl nr)) (at_other nl nr)
    ]
  ]

  crossed :
      (arr : List A) (l r : ℕ)
      → IsSplit arr l r
      → l < r
      → r ≤ length arr
      → is_lt (cmpfn (get_or arr l p) p) ≡ false
      → is_gt (cmpfn (get_or arr (r - 1) p) p) ≡ false
      → IsSplit (exchange p arr l (r - 1)) (l + 1) (r - 1)
  crossed arr l r s h k not_less not_greater = record {
    low = λ i hi.
        exchanged (λ a. is_gt (cmpfn a p) ≡ false) arr l (r - 1) i (omega arith) (omega arith)
          (λ e. not_greater)
          (λ e. subst (λ j. is_gt (cmpfn (get_or arr j p) p) ≡ false) (omega arith) not_greater)
          (λ nl nr. s.low i (omega arith));
    high = λ i hi hk.
        exchanged (λ a. is_gt (cmpfn p a) ≡ false) arr l (r - 1) i (omega arith) (omega arith)
          (λ e.
            subst (λ j. is_gt (cmpfn p (get_or arr j p)) ≡ false)
              (let same : l ≡ r - 1 = omega arith in same) (o.flip p (get_or arr l p) ∙ not_less))
          (λ e. o.flip p (get_or arr l p) ∙ not_less)
          (λ nl nr. s.high i (omega arith) (omega (arith, length-exchange p arr l (r - 1))));
  }

  ended :
      (arr start : List A) (l r : ℕ)
      → IsSplit arr l r
      → Permᴰ arr start
      → length arr ≡ length start
      → r ≤ l
      → l ≤ length start
      → Progress arr l r
      → Parted start (arr, l, r)
  ended arr start l r s perm same rl ll progress = record {
    split = s;
    perm = perm;
    same_length = same;
    met = rl;
    inside = ll;
    moved = elim progress [
      | inl both ↦ (both.0, omega (arith, both.1))
      | inr (m, lm, mr, e) ↦ absurd (omega arith)
    ];
  }

  Progress-advance :
      (arr : List A) (l r : ℕ)
      → is_lt (cmpfn (get_or arr l p) p) ≡ true
      → Progress arr l r
      → Progress arr (l + 1) r
  Progress-advance arr l r less (inl both) = inl (omega arith, both.1)
  Progress-advance arr l r less (inr (m, lm, mr, e)) = elim (ℕ_discrete l m) [
    | yes at ↦ absurd (
        true_ne_false (
          sym less
          ∙ ap (λ j. is_lt (cmpfn (get_or arr j p) p)) at
          ∙ ap (λ a. is_lt (cmpfn a p)) e
          ∙ own.0))
    | no past ↦ inr (m, omega arith, mr, e)
  ]

  Progress-retreat :
      (arr : List A) (l r : ℕ)
      → is_gt (cmpfn (get_or arr (r - 1) p) p) ≡ true
      → Progress arr l r
      → Progress arr l (r - 1)
  Progress-retreat arr l r greater (inl both) = inl (both.0, omega (arith, both.1))
  Progress-retreat arr l r greater (inr (m, lm, mr, e)) = elim (ℕ_discrete (r - 1) m) [
    | yes at ↦ absurd (
        true_ne_false (
          sym greater
          ∙ ap (λ j. is_gt (cmpfn (get_or arr j p) p)) at
          ∙ ap (λ a. is_gt (cmpfn a p)) e
          ∙ own.1))
    | no past ↦ inr (m, lm, omega arith, e)
  ]

  -- The loop ends by itself where the rounds are enough.
  pub partition_lem :
      (k : ℕ) (arr start : List A) (l r : ℕ)
      → IsSplit arr l r
      → Permᴰ arr start
      → length arr ≡ length start
      → l ≤ length start
      → r ≤ length start
      → r - l ≤ k
      → Progress arr l r
      → Parted start (partition cmpfn k p arr l r)
  unfolding partition
  partition_lem zero arr start l r s perm same ll rl few progress =
      ended arr start l r s perm same (omega arith) ll progress
  partition_lem (suc k) arr start l r s perm same ll rl few progress = elim (Bool-cases (ltb l r)) [
    | inr done ↦ rw (done, partition) (ended arr start l r s perm same (ground arith) ll progress)
    | inl open' ↦
        let apart = ltb→lt l r open' in
        elim (Bool-cases (is_lt (cmpfn (get_or arr l p) p))) [
          | inl less ↦
              rw (open', less, partition)
                (partition_lem k arr start (l + 1) r (advance arr l r s less) perm same
                  (omega arith) rl (omega arith) (Progress-advance arr l r less progress))
          | inr not_less ↦ elim (Bool-cases (is_gt (cmpfn (get_or arr (r - 1) p) p))) [
            | inl greater ↦
                rw (open', not_less, greater, partition)
                  (partition_lem k arr start l (r - 1) (retreat arr l r s greater) perm same ll
                    (omega arith) (omega arith) (Progress-retreat arr l r greater progress))
            | inr not_greater ↦
                rw (open', not_less, not_greater, partition)
                  (partition_lem k (exchange p arr l (r - 1)) start (l + 1) (r - 1)
                    (crossed arr l r s apart (omega arith) not_less not_greater)
                    (Permᴰ.trans (exchange_perm p arr l (r - 1) (omega arith) (omega arith)) perm)
                    (length-exchange p arr l (r - 1) ∙ same) (omega arith) (omega arith)
                    (omega arith)
                    (inl (omega arith, omega (arith, length-exchange p arr l (r - 1)))))
          ]
        ]
  ]
