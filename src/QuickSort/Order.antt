-- ===== src/QuickSort/Order.antt =====
-- Comparison functions that order, and lists that are in their order.
use project_tox_core.Prelude.{◌≡◌, refl, subst, true, false, List, [], ◌∷◌, ◌++◌, All}
use Prim.Native.Nat.{Ordering, lt, eq, gt}
use mathlib.Core.List.{Permᴰ}
use project_tox_core.QuickSort.{is_lt, is_gt}

-- The comparison turned round gives the other result, and not greater is transitive.
pub record IsOrder {ℓ} {A : Type ℓ} (cmpfn : A → A → Ordering) : Type ℓ where
  pub flip : (x y : A) → is_gt (cmpfn x y) ≡ is_lt (cmpfn y x)
  pub trans :
      (x y z : A)
      → is_gt (cmpfn x y) ≡ false
      → is_gt (cmpfn y z) ≡ false
      → is_gt (cmpfn x z) ≡ false

pub less_not_greater : (o : Ordering) → is_lt o ≡ true → is_gt o ≡ false
less_not_greater lt h = refl
less_not_greater eq h = refl
less_not_greater gt h = absurd (cc)

pub equal_results : (o : Ordering) → is_lt o ≡ is_gt o → (is_lt o ≡ false) × (is_gt o ≡ false)
equal_results lt h = absurd (cc)
equal_results eq h = (refl, refl)
equal_results gt h = absurd (cc)

module _ {ℓ} {A : Type ℓ} where
  -- Every item is not greater than any later one.
  abbrev pub IsSorted : (A → A → Ordering) → List A → Type 0
  IsSorted cmpfn [] = Unit {0}
  IsSorted cmpfn (x ∷ xs) = All (λ y. is_gt (cmpfn x y) ≡ false) xs × IsSorted cmpfn xs

  pub All-append : (P : A → Type 0) (xs ys : List A) → All P xs → All P ys → All P (xs ++ ys)
  All-append P [] ys hx hy = hy
  All-append P (x ∷ xs) ys hx hy = (hx.0, All-append P xs ys hx.1 hy)

  pub All-mono : (P Q : A → Type 0) (xs : List A) → ((x : A) → P x → Q x) → All P xs → All Q xs
  All-mono P Q [] f h = tt
  All-mono P Q (x ∷ xs) f h = (f x h.0, All-mono P Q xs f h.1)

  pub All-perm : (P : A → Type 0) {xs ys : List A} → Permᴰ xs ys → All P xs → All P ys
  All-perm P Permᴰ.nil h = h
  All-perm P (Permᴰ.cons e p) h = (subst P e h.0, All-perm P p h.1)
  All-perm P (Permᴰ.swap e f) h = (subst P f h.1.0, (subst P e h.0, h.1.1))
  All-perm P (Permᴰ.trans p q) h = All-perm P q (All-perm P p h)

  -- Each of the first items is not greater than each of the last.
  abbrev pub IsBelow : (A → A → Ordering) → List A → List A → Type 0
  IsBelow cmpfn xs ys = All (λ x. All (λ y. is_gt (cmpfn x y) ≡ false) ys) xs
