-- ===== src/Messenger/Placing.antt =====
-- Where toxcore/Messenger.c finds a friend in its list, and where it puts a new one.
use project_tox_core.Prelude.{
  ℕ, suc, ◌+◌, ◌≡◌, inl, inr, refl, ap, sym, subst, ◌∙◌, Bool, true, false, none, some, List, [],
  ◌∷◌, ◌++◌, ◌==◌, if◌then◌else◌, arith, length, set, get_or, Bool-cases, Option-cases,
  length-append,
}
use mathlib.Core.Option.{some-injective}
use project_tox_core.Messenger.{Friend, zero_friend, find_friend}
use project_tox_core.Messenger.Adding.{put_friend, free_place}

-- The friend that the search stops at.
pub record Found (test : Friend → Bool) (fs : List Friend) (i : ℕ) : Type 0 where
  pub before : List Friend
  pub item : Friend
  pub after : List Friend
  pub split : fs ≡ before ++ item ∷ after
  pub place : i ≡ length before
  pub passed : test item ≡ true

further_on :
    (test : Friend → Bool) (f : Friend) (fs : List Friend) (i : ℕ)
    → Found test fs i
    → Found test (f ∷ fs) (suc i)
further_on test f fs i h = record {
  before = f ∷ h.before;
  item = h.item;
  after = h.after;
  split = ap (λ t. f ∷ t) h.split;
  place = ap suc h.place;
  passed = h.passed;
}

search_stops :
    (test : Friend → Bool) (k : ℕ) (fs : List Friend) (i : ℕ)
    → find_friend test k fs ≡ some i
    → (n : ℕ) × (i ≡ k + n) × Found test fs n
unfolding find_friend
search_stops test k [] i e = absurd (cc)
search_stops test k (f ∷ fs) i e = elim (Bool-cases (test f)) [
  | inl here ↦
      let first : some k ≡ some i =
        subst (λ b. (if b then some k else find_friend test (k + 1) fs) ≡ some i) here e in
      (
        0,
        omega (arith, some-injective k i first),
        record { before = []; item = f; after = fs; split = refl; place = refl; passed = here },
      )
  | inr on ↦
      let later : find_friend test (k + 1) fs ≡ some i =
        subst (λ b. (if b then some k else find_friend test (k + 1) fs) ≡ some i) on e in
      let (n, at_n, h) = search_stops test (k + 1) fs i later in
      (suc n, omega arith, further_on test f fs n h)
]

pub find_friend-Found :
    (test : Friend → Bool) (fs : List Friend) (i : ℕ)
    → find_friend test 0 fs ≡ some i
    → Found test fs i
find_friend-Found test fs i e =
    let (n, at_n, h) = search_stops test 0 fs i e in
    subst (Found test fs) (let same : n ≡ i = omega arith in same) h

-- One friend more in the search, which passes the test.
find_friend-append :
    (test : Friend → Bool) (k : ℕ) (fs : List Friend) (z : Friend)
    → test z ≡ true
    → find_friend test k (fs ++ z ∷ [])
      ≡ (elim (find_friend test k fs) [ some i ↦ some i | none ↦ some (k + length fs) ])
unfolding find_friend
find_friend-append test k [] z h = rw (h, find_friend) (ap some (omega arith))
find_friend-append test k (f ∷ fs) z h = elim (Bool-cases (test f)) [
  | inl here ↦ rw (here, find_friend) refl
  | inr on ↦
      let shift : k + 1 + length fs ≡ k + suc (length fs) = omega arith in
      rw (on, find_friend)
        (subst
          (λ n.
            find_friend test (k + 1) (fs ++ z ∷ [])
            ≡ (elim (find_friend test (k + 1) fs) [ some i ↦ some i | none ↦ some n ]))
          shift (find_friend-append test (k + 1) fs z h))
]

pub get_or-split :
    (before after : List Friend) (f : Friend)
    → get_or (before ++ f ∷ after) (length before) zero_friend ≡ f
get_or-split [] after f = refl
get_or-split (g ∷ before) after f = get_or-split before after f

pub set-split :
    (before after : List Friend) (f g : Friend)
    → set (before ++ f ∷ after) (length before) g ≡ before ++ g ∷ after
set-split [] after f g = refl
set-split (h ∷ before) after f g = ap (λ t. h ∷ t) (set-split before after f g)

-- The friend stands in an unused place of the list, or behind its end; all others stay.
pub data Placed (f : Friend) : List Friend → ℕ → List Friend → Type 0 where
  reused :
      (before after : List Friend) (old : Friend)
      → old.status ≡ 0
      → Placed f (before ++ old ∷ after) (length before) (before ++ f ∷ after)
  appended : (fs : List Friend) → Placed f fs (length fs) (fs ++ f ∷ [])

put_friend-end : (fs : List Friend) (f : Friend) → put_friend fs (length fs) f ≡ fs ++ f ∷ []
put_friend-end fs f = let end : (length fs == length fs) ≡ true = ground arith in rw end refl

put_friend-split :
    (before after : List Friend) (old f : Friend)
    → put_friend (before ++ old ∷ after) (length before) f ≡ before ++ f ∷ after
put_friend-split before after old f =
    let size = length-append before (old ∷ after) in
    let inside : (length before == length (before ++ old ∷ after)) ≡ false = ground (arith, size) in
    rw inside (set-split before after old f)

pub put_friend-Placed :
    (fs : List Friend) (i : ℕ) (f : Friend)
    → free_place fs ≡ some i
    → Placed f fs i (put_friend fs i f)
unfolding free_place zero_friend
put_friend-Placed fs i f e =
    let test : Friend → Bool = λ g. g.status == 0 in
    let more = find_friend-append test 0 fs zero_friend refl in
    elim (Option-cases (find_friend test 0 fs)) [
      | inl full ↦
          let at_end : some (0 + length fs) ≡ some i =
            subst (λ o. (elim o [ some n ↦ some n | none ↦ some (0 + length fs) ]) ≡ some i) full
              (sym more ∙ e) in
          let same : length fs ≡ i = omega (arith, some-injective (0 + length fs) i at_end) in
          subst (λ n. Placed f fs n (put_friend fs n f)) same
            (subst (Placed f fs (length fs)) (sym (put_friend-end fs f)) (appended fs))
      | inr (n, found) ↦
          let here : some n ≡ some i =
            subst (λ o. (elim o [ some n ↦ some n | none ↦ some (0 + length fs) ]) ≡ some i) found
              (sym more ∙ e) in
          let h = find_friend-Found test fs n found in
          let at_i : length h.before ≡ i = sym h.place ∙ some-injective n i here in
          subst (λ n. Placed f fs n (put_friend fs n f)) at_i
            (subst (λ gs. Placed f gs (length h.before) (put_friend gs (length h.before) f))
              (sym h.split)
              (subst (Placed f (h.before ++ h.item ∷ h.after) (length h.before))
                (sym (put_friend-split h.before h.after h.item f))
                (reused h.before h.after h.item (ground (arith, h.passed)))))
    ]
