-- ===== src/Base/Enumerate.antt =====
-- `{x.pk: i for i, x in enumerate(sorted(items), start=n)}`: in a list put in order by a total order
-- the place of an item is the number of the items before it.
use swat4stats.Base.Tests.{◌==◌, ltb, is_some, Bool-cases}
use swat4stats.Base.Lists.{elem, All, All-map, All-map₃}
use swat4stats.Base.Table.{count_where}
use swat4stats.Base.Keys.{UniqueKeys, keys, lookup}
use swat4stats.Base.Sort.{insert_by, sorted, IsSorted, IsSortedFrom, sorted-IsSorted}
use Prim.Native.Nat.{ℕ, suc, ◌+◌}
use mathlib.Core.Path.{◌≡◌, refl, sym, ap, ◌∙◌}
use mathlib.Core.Logic.{◌≢◌, inl, inr}
use mathlib.Core.Bool.{Bool, true, false}
use mathlib.Core.Option.{some}
use mathlib.Core.List.{List, [], ◌∷◌}
use native.Mathlib.Omega.{arith}

module _ {ℓ} {A : Type ℓ} where
  unfoldable pub enumerate : ℕ → List A → List (A × ℕ)
  enumerate n [] = []
  enumerate n (x ∷ xs) = (x, n) ∷ enumerate (suc n) xs

module _ {ℓ} {A : Type ℓ} (before : A → A → Bool) where
  count-insert_by :
      (p : A → Bool) (x : A) (ys : List A)
      → count_where p (insert_by before x ys) ≡ count_where p (x ∷ ys)
  count-insert_by p x [] = refl
  count-insert_by p x (y ∷ ys) = ground (arith, count-insert_by p x ys)

  pub count_where-sorted :
      (p : A → Bool) (xs : List A) → count_where p (sorted before xs) ≡ count_where p xs
  unfolding sorted
  count_where-sorted p [] = refl
  count_where-sorted p (x ∷ xs) =
      ground (arith, count-insert_by p x (sorted before xs), count_where-sorted p xs)

  All-insert_by {κ} :
      (P : A → Type κ) (x : A) (ys : List A) → P x → All P ys → All P (insert_by before x ys)
  All-insert_by P x [] h hs = (h, tt)
  All-insert_by P x (y ∷ ys) h hs = elim (Bool-cases (before y x)) [
    | inl e ↦ rw e (hs.0, All-insert_by P x ys h hs.1)
    | inr e ↦ rw e (h, hs)
  ]

  All-insert_by_back {κ} :
      (P : A → Type κ) (x : A) (ys : List A) → All P (insert_by before x ys) → P x × All P ys
  All-insert_by_back P x [] h = h
  All-insert_by_back P x (y ∷ ys) h = elim (Bool-cases (before y x)) [
    | inl e ↦
        let t : P y × All P (insert_by before x ys) = rw e at h in
        let (hx, hs) = All-insert_by_back P x ys t.1 in (hx, (t.0, hs))
    | inr e ↦ rw e at h
  ]

  pub All-sorted {κ} : (P : A → Type κ) (xs : List A) → All P xs → All P (sorted before xs)
  unfolding sorted
  All-sorted P [] h = tt
  All-sorted P (x ∷ xs) h = All-insert_by P x (sorted before xs) h.0 (All-sorted P xs h.1)

  pub All-sorted_back {κ} : (P : A → Type κ) (xs : List A) → All P (sorted before xs) → All P xs
  unfolding sorted
  All-sorted_back P [] h = tt
  All-sorted_back P (x ∷ xs) h =
      let (hx, hs) = All-insert_by_back P x (sorted before xs) h in (hx, All-sorted_back P xs hs)

  module _ (key : A → ℕ) where
    lookup-enumerate :
        (k n : ℕ) (ys : List A)
        → is_some (lookup key k (enumerate n ys)) ≡ ltb 0 (count_where (λ y. key y == k) ys)
    unfolding enumerate
    lookup-enumerate k n [] = refl
    lookup-enumerate k n (y ∷ ys) = ground (arith, lookup-enumerate k (suc n) ys)

    count-keys :
        (k : ℕ) (ys : List A) → ltb 0 (count_where (λ y. key y == k) ys) ≡ elem k (keys key ys)
    count-keys k [] = refl
    count-keys k (y ∷ ys) = ground (arith, count-keys k ys)

    -- The dictionary of places has exactly the keys of the items.
    pub elem-enumerate-sorted :
        (k n : ℕ) (xs : List A)
        → is_some (lookup key k (enumerate n (sorted before xs))) ≡ elem k (keys key xs)
    elem-enumerate-sorted k n xs =
        lookup-enumerate k n (sorted before xs)
        ∙ ap (ltb 0) (count_where-sorted (λ y. key y == k) xs)
        ∙ count-keys k xs

    UniqueKeys-insert_by :
        (x : A) (ys : List A)
        → All (λ y. key y ≢ key x) ys
        → UniqueKeys key ys
        → UniqueKeys key (insert_by before x ys)
    UniqueKeys-insert_by x [] d u = (tt, tt)
    UniqueKeys-insert_by x (y ∷ ys) d u = elim (Bool-cases (before y x)) [
      | inl e ↦ rw e (
        All-insert_by (λ z. key z ≢ key y) x ys (λ q. d.0 (sym q)) u.0,
        UniqueKeys-insert_by x ys d.1 u.1,
      )
      | inr e ↦ rw e (d, u)
    ]

    pub UniqueKeys-sorted : (xs : List A) → UniqueKeys key xs → UniqueKeys key (sorted before xs)
    unfolding sorted
    UniqueKeys-sorted [] u = tt
    UniqueKeys-sorted (x ∷ xs) u =
        UniqueKeys-insert_by x (sorted before xs) (All-sorted (λ y. key y ≢ key x) xs u.0)
          (UniqueKeys-sorted xs u.1)

    module _ (asym : (x y : A) → before x y ≡ true → before y x ≡ false)
        (cotrans : (x y z : A) → before x y ≡ false → before y z ≡ false → before x z ≡ false)
        (total : (x y : A) → key y ≢ key x → before y x ≡ false → before x y ≡ true) where
      none_before :
          (x : A) (ys : List A) → IsSortedFrom before x ys → count_where (λ y. before y x) ys ≡ 0
      none_before x [] s = refl
      none_before x (y ∷ ys) s = ground (arith, s.0, none_before x ys s.1)

      not_self : (x : A) → before x x ≡ false
      not_self x = elim (Bool-cases (before x x)) [ inl e ↦ asym x x e | inr e ↦ e ]

      abbrev pub IsPlace : List A → ℕ → A → Type 0
      IsPlace ys n x =
          lookup key (key x) (enumerate n ys) ≡ some (n + count_where (λ y. before y x) ys)

      later :
          (x : A) (ys : List A) (n : ℕ) (y : A)
          → key y ≢ key x
          → before y x ≡ false
          → IsPlace ys (suc n) y
          → IsPlace (x ∷ ys) n y
      unfolding enumerate
      later x ys n y d b h = ground (arith, d, total x y d b, h)

      IsSorted-places :
          (ys : List A) (n : ℕ) → UniqueKeys key ys → IsSorted before ys → All (IsPlace ys n) ys
      unfolding enumerate
      IsSorted-places [] n u s = tt
      IsSorted-places (x ∷ ys) n u s = (
        first x ys n s.0,
        All-map₃ (λ y d b h. later x ys n y d b h) ys u.0 (from x ys s.0)
            (IsSorted-places ys (suc n) u.1 s.1),
      )
        where
          first : (x : A) (ys : List A) (n : ℕ) → IsSortedFrom before x ys → IsPlace (x ∷ ys) n x
          first x ys n s = rw (none_before x ys s, not_self x) (ground arith)

          from : (x : A) (ys : List A) → IsSortedFrom before x ys → All (λ y. before y x ≡ false) ys
          from x [] s = tt
          from x (y ∷ ys) s = (s.0, from x ys s.1)

      -- The dictionary of places of the sorted items, asked for the key of one of the items.
      pub lookup-enumerate-sorted :
          (xs : List A) (n : ℕ)
          → UniqueKeys key xs
          → All
              (λ x.
                lookup key (key x) (enumerate n (sorted before xs))
                ≡ some (n + count_where (λ y. before y x) xs))
              xs
      lookup-enumerate-sorted xs n u =
          All-map (λ x h. h ∙ ap (λ c. some (n + c)) (count_where-sorted (λ y. before y x) xs)) xs
            (All-sorted_back (IsPlace (sorted before xs) n) xs (
              IsSorted-places (sorted before xs) n (UniqueKeys-sorted xs u)
                (sorted-IsSorted before asym cotrans xs)))
