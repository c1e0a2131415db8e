-- ===== src/Base/Sort.antt =====
-- `sorted(items, key=…)`: a stable sort, here by insertion, over a Boolean `before` on the items.
use swat4stats.Base.Tests.{if◌then◌else◌, Bool-cases}
use swat4stats.Base.Lists.{length}
use Prim.Native.Nat.{suc}
use mathlib.Core.Path.{◌≡◌, refl, ap, ◌∙◌}
use mathlib.Core.Logic.{inl, inr}
use mathlib.Core.Bool.{Bool, true, false}
use mathlib.Core.List.{List, [], ◌∷◌, Perm}
use mathlib.Core.List.Perm
use native.Mathlib.Omega.{arith}

module _ {ℓ} {A : Type ℓ} (before : A → A → Bool) where
  -- `x` stands left of the items that it ties with
  abbrev pub insert_by : A → List A → List A
  insert_by x [] = x ∷ []
  insert_by x (y ∷ ys) = if before y x then y ∷ insert_by x ys else x ∷ y ∷ ys

  unfoldable pub sorted : List A → List A
  sorted [] = []
  sorted (x ∷ xs) = insert_by x (sorted xs)

  -- No item stands right of one that it is before.
  abbrev pub IsSortedFrom : A → List A → Type 0
  IsSortedFrom x [] = Unit
  IsSortedFrom x (y ∷ ys) = (before y x ≡ false) × IsSortedFrom x ys

  abbrev pub IsSorted : List A → Type 0
  IsSorted [] = Unit
  IsSorted (x ∷ xs) = IsSortedFrom x xs × IsSorted xs

  insert_by-perm : (x : A) (ys : List A) → Perm (insert_by x ys) (x ∷ ys)
  insert_by-perm x [] = Perm.refl (x ∷ [])
  insert_by-perm x (y ∷ ys) =
      elim (before y x) as (λ b. Perm (if b then y ∷ insert_by x ys else x ∷ y ∷ ys) (x ∷ y ∷ ys)) [
        | true ↦ Perm.trans (Perm.cons y (insert_by-perm x ys)) (Perm.swap x y ys)
        | false ↦ Perm.refl (x ∷ y ∷ ys)
      ]

  pub sorted-perm : (xs : List A) → Perm (sorted xs) xs
  unfolding sorted
  sorted-perm [] = Perm.refl []
  sorted-perm (x ∷ xs) = Perm.trans (insert_by-perm x (sorted xs)) (Perm.cons x (sorted-perm xs))

  length-insert_by : (x : A) (ys : List A) → length (insert_by x ys) ≡ suc (length ys)
  length-insert_by x [] = refl
  length-insert_by x (y ∷ ys) = ground (arith, length-insert_by x ys)

  pub length-sorted : (xs : List A) → length (sorted xs) ≡ length xs
  unfolding sorted
  length-sorted [] = refl
  length-sorted (x ∷ xs) = length-insert_by x (sorted xs) ∙ ap suc (length-sorted xs)

  module _ (asym : (x y : A) → before x y ≡ true → before y x ≡ false)
      (cotrans : (x y z : A) → before x y ≡ false → before y z ≡ false → before x z ≡ false) where
    insert_by-from :
        (a x : A) (ys : List A)
        → before x a ≡ false
        → IsSortedFrom a ys
        → IsSortedFrom a (insert_by x ys)
    insert_by-from a x [] h s = (h, tt)
    insert_by-from a x (y ∷ ys) h s = ground (arith, insert_by-from a x ys h s.1)

    from-weaken :
        (x y : A) (ys : List A) → before y x ≡ false → IsSortedFrom y ys → IsSortedFrom x ys
    from-weaken x y [] h s = tt
    from-weaken x y (z ∷ zs) h s = (cotrans z y x s.0 h, from-weaken x y zs h s.1)

    insert_by-IsSorted : (x : A) (ys : List A) → IsSorted ys → IsSorted (insert_by x ys)
    insert_by-IsSorted x [] s = (tt, tt)
    insert_by-IsSorted x (y ∷ ys) s = elim (Bool-cases (before y x)) [
      | inl e ↦ rw e (insert_by-from y x ys (asym y x e) s.0, insert_by-IsSorted x ys s.1)
      | inr e ↦ rw e ((e, from-weaken x y ys e s.0), s)
    ]

    -- The sort puts every list in order.
    pub sorted-IsSorted : (xs : List A) → IsSorted (sorted xs)
    unfolding sorted
    sorted-IsSorted [] = tt
    sorted-IsSorted (x ∷ xs) = insert_by-IsSorted x (sorted xs) (sorted-IsSorted xs)
