-- ===== src/Base/Table.antt =====
-- A database table is the list of its rows. `filter(…).update(…)` rewrites the rows that pass a
-- test and reports their number.
use swat4stats.Base.Tests.{if◌then◌else◌, Bool-cases}
use swat4stats.Base.Lists.{length, All}
use Prim.Native.Nat.{ℕ, ◌+◌}
use mathlib.Core.Path.{◌≡◌, refl, subst}
use mathlib.Core.Logic.{inl, inr}
use mathlib.Core.Bool.{Bool, true, false, ◌||◌}
use mathlib.Core.Option
use mathlib.Core.Option.{Option, none, some}
use mathlib.Core.List.{List, [], ◌∷◌, ◌++◌, map}
use native.Mathlib.Omega.{arith}

module _ {ℓ} {A : Type ℓ} where
  -- `filter(p)`
  abbrev pub select : (A → Bool) → List A → List A
  select p [] = []
  select p (x ∷ xs) = if p x then x ∷ select p xs else select p xs

  -- `filter(p).update(f)`
  abbrev pub update_where : (A → Bool) → (A → A) → List A → List A
  update_where p f = map (λ x. if p x then f x else x)

  -- the number of rows that an update reports
  abbrev pub count_where : (A → Bool) → List A → ℕ
  count_where p [] = 0
  count_where p (x ∷ xs) = (if p x then 1 else 0) + count_where p xs

  -- `filter(p)[:1].get()`, the first row that fits
  abbrev pub find? : (A → Bool) → List A → Option A
  find? p [] = none
  find? p (x ∷ xs) = if p x then some x else find? p xs

  abbrev pub exists : (A → Bool) → List A → Bool
  exists p [] = false
  exists p (x ∷ xs) = p x || exists p xs

  pub length-select : (p : A → Bool) (xs : List A) → length (select p xs) ≡ count_where p xs
  length-select p [] = refl
  length-select p (x ∷ xs) = ground (arith, length-select p xs)

  -- What the update makes of each row holds of all rows afterwards.
  pub All-update_where {κ} :
      (P : A → Type κ) (Q : A → Type κ) (p : A → Bool) (f : A → A) (xs : List A)
      → ((x : A) → P x → p x ≡ true → Q (f x))
      → ((x : A) → P x → p x ≡ false → Q x)
      → All P xs
      → All Q (update_where p f xs)
  All-update_where P Q p f [] yes_case no_case h = tt
  All-update_where P Q p f (x ∷ xs) yes_case no_case h = elim (Bool-cases (p x)) [
    | inl e ↦ rw e (yes_case x h.0 e, All-update_where P Q p f xs yes_case no_case h.1)
    | inr e ↦ rw e (no_case x h.0 e, All-update_where P Q p f xs yes_case no_case h.1)
  ]

  -- What holds of the selected rows holds of the rows that pass the test.
  pub All-select {κ} :
      (P : A → Type κ) (p : A → Bool) (xs : List A)
      → All P (select p xs)
      → All (λ x. p x ≡ true → P x) xs
  All-select P p [] h = tt
  All-select P p (x ∷ xs) h = elim (Bool-cases (p x)) [
    | inl e ↦ let t : P x × All P (select p xs) = rw e at h in ((λ _. t.0), All-select P p xs t.1)
    | inr e ↦ ((λ q. absurd (ground arith)), All-select P p xs (rw e at h))
  ]

  -- What holds of all rows holds of the selected ones.
  pub select-All {κ} :
      (P : A → Type κ) (p : A → Bool) (xs : List A) → All P xs → All P (select p xs)
  select-All P p [] h = tt
  select-All P p (x ∷ xs) h = elim (Bool-cases (p x)) [
    | inl e ↦ rw e (h.0, select-All P p xs h.1)
    | inr e ↦ rw e (select-All P p xs h.1)
  ]

  pub exists_mono :
      (p q : A → Bool) (xs : List A)
      → ((x : A) → p x ≡ true → q x ≡ true)
      → exists p xs ≡ true
      → exists q xs ≡ true
  exists_mono p q [] f h = h
  exists_mono p q (x ∷ xs) f h = ground (arith, f x, exists_mono p q xs f)

  -- No row that is there passes a test that all of them fail.
  pub exists-last :
      (p : A → Bool) (xs : List A) (y : A) → p y ≡ true → exists p (xs ++ y ∷ []) ≡ true
  exists-last p [] y e = rw e refl
  exists-last p (x ∷ xs) y e = ground (arith, exists-last p xs y e)

  pub exists-All : (p : A → Bool) (xs : List A) → All (λ x. p x ≡ false) xs → exists p xs ≡ false
  exists-All p [] h = refl
  exists-All p (x ∷ xs) h = ground (arith, h.0, exists-All p xs h.1)

  pub find?_holds : (p : A → Bool) (xs : List A) (y : A) → find? p xs ≡ some y → p y ≡ true
  find?_holds p [] y h = cc
  find?_holds p (x ∷ xs) y h = ground (arith, find?_holds p xs y)

  pub find?-append_none :
      (p : A → Bool) (xs ys : List A) → find? p xs ≡ none → find? p (xs ++ ys) ≡ find? p ys
  find?-append_none p [] ys h = refl
  find?-append_none p (x ∷ xs) ys h = ground (arith, find?-append_none p xs ys)

  -- What holds of every row holds of the row that is found.
  pub find?-All {κ} :
      (P : A → Type κ) (p : A → Bool) (xs : List A) (y : A) → All P xs → find? p xs ≡ some y → P y
  find?-All P p [] y h e = absurd (Option.none-ne-some y e)
  find?-All P p (x ∷ xs) y h e = elim (Bool-cases (p x)) [
    | inl q ↦ subst P (Option.some-injective x y (rw q at e)) h.0
    | inr q ↦ find?-All P p xs y h.1 (rw q at e)
  ]

  -- Where nothing is found every row fails the test.
  pub find?-none : (p : A → Bool) (xs : List A) → find? p xs ≡ none → All (λ x. p x ≡ false) xs
  find?-none p [] e = tt
  find?-none p (x ∷ xs) e = elim (Bool-cases (p x)) [
    | inl q ↦ absurd (Option.some-ne-none x (rw q at e))
    | inr q ↦ (q, find?-none p xs (rw q at e))
  ]

  -- The row that is found is one of the table.
  pub found_in :
      (p : A → Bool) (xs : List A) (y : A)
      → find? p xs ≡ some y
      → (t : A → Bool) → t y ≡ true
      → exists t xs ≡ true
  found_in p [] y e t h = absurd (Option.none-ne-some y e)
  found_in p (x ∷ xs) y e t h = elim (Bool-cases (p x)) [
    | inl q ↦ rw (Option.some-injective x y (rw q at e), h) refl
    | inr q ↦ ground (arith, found_in p xs y (rw q at e) t h)
  ]

  -- Tests that agree on every row select the same rows.
  pub select_congr :
      (p q : A → Bool) (xs : List A) → All (λ x. p x ≡ q x) xs → select p xs ≡ select q xs
  select_congr p q [] h = refl
  select_congr p q (x ∷ xs) h = ground (arith, h.0, select_congr p q xs h.1)

module _ {ℓ κ} {A : Type ℓ} {B : Type κ} where
  -- Functions that agree on every row make the same table.
  pub map_congr : (f g : A → B) (xs : List A) → All (λ x. f x ≡ g x) xs → map f xs ≡ map g xs
  map_congr f g [] h = refl
  map_congr f g (x ∷ xs) h = cc (h.0, map_congr f g xs h.1)
