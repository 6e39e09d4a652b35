-- ===== src/QuickSort.antt =====
-- `make_quick_sort` of toxcore/misc_tools.h: an array is a list, and the pointers `_l_` and `_r_` are
-- the index of the first and one more than the index of the second, so that `_l_ <= _r_` is `l < r`.
pub mod Order
pub mod Partition
pub mod Sorted
use project_tox_core.Prelude.{
  ℕ, zero, suc, ◌+◌, ◌-◌, ◌/◌, Bool, true, false, List, [], ◌∷◌, ◌++◌, ltb, if◌then◌else◌, length,
  get_or, set, take, drop,
}
use Prim.Native.Nat.{Ordering, lt, eq, gt}

abbrev pub is_lt : Ordering → Bool
is_lt lt = true
is_lt eq = false
is_lt gt = false

abbrev pub is_gt : Ordering → Bool
is_gt lt = false
is_gt eq = false
is_gt gt = true

module _ {ℓ} {A : Type ℓ} where
  -- `_t_ = *_l_; *_l_ = *_r_; *_r_ = _t_`
  abbrev pub exchange : A → List A → ℕ → ℕ → List A
  exchange p arr l r = set (set arr l (get_or arr r p)) r (get_or arr l p)

module _ {ℓ} {A : Type ℓ} (cmpfn : A → A → Ordering) where
  -- The `while` loop around the pivot `p`. Every round moves a pointer, so `r - l` rounds are enough.
  unfoldable pub partition : ℕ → A → List A → ℕ → ℕ → List A × ℕ × ℕ
  partition zero p arr l r = (arr, l, r)
  partition (suc k) p arr l r = elim (ltb l r) [
    | false ↦ (arr, l, r)
    | true ↦ elim (is_lt (cmpfn (get_or arr l p) p)) [
      | true ↦ partition k p arr (l + 1) r
      | false ↦ elim (is_gt (cmpfn (get_or arr (r - 1) p) p)) [
        | true ↦ partition k p arr l (r - 1)
        | false ↦ partition k p (exchange p arr l (r - 1)) (l + 1) (r - 1)
      ]
    ]
  ]

  -- The two recursive calls work on the parts before `r` and from `l` on.
  unfoldable pub sort_parts : (List A → List A) → List A × ℕ × ℕ → List A
  sort_parts sort (arr, l, r) =
      sort (take r arr) ++ (take (l - r) (drop r arr) ++ sort (drop l arr))

  -- `quick_sort arr (length arr)`, with as much fuel as the depth of the calls.
  unfoldable pub quick_sort : ℕ → List A → List A
  unfolding partition sort_parts
  quick_sort zero arr = arr
  quick_sort (suc k) [] = []
  quick_sort (suc k) (x ∷ []) = x ∷ []
  quick_sort (suc k) (x ∷ y ∷ rest) =
      let arr = x ∷ y ∷ rest in
      let p = get_or arr (length arr / 2) x in
      sort_parts (quick_sort k) (partition (length arr) p arr 0 (length arr))
