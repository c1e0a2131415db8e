-- ===== src/Base/First.antt =====
-- `sorted(items, key=…)[0]`: the first item of a sorted list is one of the items, and none of them is
-- before it.
use swat4stats.Base.Tests.{Bool-cases}
use swat4stats.Base.Lists.{All}
use swat4stats.Base.Table.{exists, count_where}
use swat4stats.Base.Sort.{insert_by, sorted, IsSorted, IsSortedFrom, sorted-IsSorted}
use swat4stats.Base.Enumerate.{All-sorted, All-sorted_back}
use mathlib.Core.Path.{◌≡◌, refl, sym, ◌∙◌, subst}
use mathlib.Core.Logic.{inl, inr}
use mathlib.Core.Bool.{Bool, true, false}
use mathlib.Core.List.{List, [], ◌∷◌}
use native.Mathlib.Omega.{arith}

module _ {ℓ} {A : Type ℓ} (before : A → A → Bool) where
  exists-insert_by :
      (p : A → Bool) (x : A) (ys : List A) → exists p (insert_by before x ys) ≡ exists p (x ∷ ys)
  exists-insert_by p x [] = refl
  exists-insert_by p x (y ∷ ys) = ground (arith, exists-insert_by p x ys)

  pub exists-sorted : (p : A → Bool) (xs : List A) → exists p (sorted before xs) ≡ exists p xs
  unfolding sorted
  exists-sorted p [] = refl
  exists-sorted p (x ∷ xs) =
      ground (arith, exists-insert_by p x (sorted before xs), exists-sorted p xs)

  count_where-insert_by :
      (p : A → Bool) (x : A) (ys : List A)
      → count_where p (insert_by before x ys) ≡ count_where p (x ∷ ys)
  count_where-insert_by p x [] = refl
  count_where-insert_by p x (y ∷ ys) = ground (arith, count_where-insert_by p x ys)

  pub count_where-sorted :
      (p : A → Bool) (xs : List A) → count_where p (sorted before xs) ≡ count_where p xs
  unfolding sorted
  count_where-sorted p [] = refl
  count_where-sorted p (x ∷ xs) =
      ground (arith, count_where-insert_by p x (sorted before xs), count_where-sorted p xs)

  pub first_exists :
      (xs : List A) (y : A) (ys : List A)
      → sorted before xs ≡ y ∷ ys
      → (p : A → Bool) → p y ≡ true
      → exists p xs ≡ true
  first_exists xs y ys e p h = sym (exists-sorted p xs) ∙ rw (e, h) refl

  pub first_All {κ} :
      (P : A → Type κ) (xs : List A) (y : A) (ys : List A)
      → sorted before xs ≡ y ∷ ys
      → All P xs
      → P y
  first_All P xs y ys e h = (subst (All P) e (All-sorted before P xs h)).0

  module _ (asym : (x y : A) → before x y ≡ true → before y x ≡ false)
      (cotrans : (x y z : A) → before x y ≡ false → before y z ≡ false → before x z ≡ false) where
    IsSortedFrom-All :
        (x : A) (ys : List A) → IsSortedFrom before x ys → All (λ y. before y x ≡ false) ys
    IsSortedFrom-All x [] s = tt
    IsSortedFrom-All x (y ∷ ys) s = (s.0, IsSortedFrom-All x ys s.1)

    pub first_least :
        (xs : List A) (y : A) (ys : List A)
        → sorted before xs ≡ y ∷ ys
        → All (λ x. before x y ≡ false) xs
    first_least xs y ys e =
        let s : IsSorted before (y ∷ ys) =
          subst (IsSorted before) e (sorted-IsSorted before asym cotrans xs) in
        All-sorted_back before (λ x. before x y ≡ false) xs
          (subst (All (λ x. before x y ≡ false)) (sym e) (self y, IsSortedFrom-All y ys s.0))
      where
        self : (y : A) → before y y ≡ false
        self y = elim (Bool-cases (before y y)) [ inl e ↦ asym y y e | inr e ↦ e ]
