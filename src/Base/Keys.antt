-- ===== src/Base/Keys.antt =====
-- Tables whose rows have distinct keys: a set of keys that was collected from some of the rows
-- picks out exactly these rows again.
use swat4stats.Base.Tests.{if◌then◌else◌, ◌==◌, is_some, Bool-cases}
use swat4stats.Base.Lists.{All, All-map₂, elem}
use swat4stats.Base.Table.{select, find?}
use Prim.Native.Nat.{ℕ}
use mathlib.Core.Path.{◌≡◌, refl, sym, ◌∙◌}
use mathlib.Core.Logic.{◌≢◌, inl, inr}
use mathlib.Core.Bool.{Bool, false}
use mathlib.Core.Option
use mathlib.Core.Option.{Option, none, some}
use mathlib.Core.List.{List, [], ◌∷◌, map}
use native.Mathlib.Omega.{arith}

module _ {ℓ} {A : Type ℓ} (key : A → ℕ) where
  abbrev pub UniqueKeys : List A → Type ℓ
  UniqueKeys [] = Unit
  UniqueKeys (x ∷ xs) = All (λ y. key y ≢ key x) xs × UniqueKeys xs

  -- `[item.pk for item in items]`
  abbrev pub keys : List A → List ℕ
  keys = map key

  elem-keys_absent :
      (p : A → Bool) (k : ℕ) (xs : List A)
      → All (λ y. key y ≢ k) xs
      → elem k (keys (select p xs)) ≡ false
  elem-keys_absent p k [] h = refl
  elem-keys_absent p k (x ∷ xs) h = ground (arith, h.0, elem-keys_absent p k xs h.1)

  -- The keys of the selected rows, tested on a row of the table, are the selection.
  pub elem-keys :
      (p : A → Bool) (xs : List A)
      → UniqueKeys xs
      → All (λ x. elem (key x) (keys (select p xs)) ≡ p x) xs
  elem-keys p [] u = tt
  elem-keys p (x ∷ xs) u = (
    ground (arith, elem-keys_absent p (key x) xs u.0),
    All-map₂ (λ y d e. ground (arith, d, e)) xs u.0 (elem-keys p xs u.1),
  )

  module _ {κ} {B : Type κ} where
    -- Pairs of a row and what is known of it, as a dictionary by the row's key.
    abbrev pub lookup : ℕ → List (A × B) → Option B
    lookup k [] = none
    lookup k ((x, b) ∷ rest) = if key x == k then some b else lookup k rest

    -- The rows for which `g` has an answer, with the answer.
    abbrev pub collect : (A → Option B) → List A → List (A × B)
    collect g [] = []
    collect g (x ∷ xs) = elim (g x) [ none ↦ collect g xs | some b ↦ (x, b) ∷ collect g xs ]

    pub collect-select :
        (g : A → Option B) (p : A → Bool) (xs : List A)
        → collect g (select p xs) ≡ collect (λ x. if p x then g x else none) xs
    collect-select g p [] = refl
    collect-select g p (x ∷ xs) = ground (arith, collect-select g p xs)

    lookup-collect_absent :
        (g : A → Option B) (k : ℕ) (xs : List A)
        → All (λ y. key y ≢ k) xs
        → lookup k (collect g xs) ≡ none
    lookup-collect_absent g k [] h = refl
    lookup-collect_absent g k (x ∷ xs) h = ground (arith, h.0, lookup-collect_absent g k xs h.1)

    pub lookup-collect :
        (g : A → Option B) (xs : List A)
        → UniqueKeys xs
        → All (λ x. lookup (key x) (collect g xs) ≡ g x) xs
    lookup-collect g [] u = tt
    lookup-collect g (x ∷ xs) u = (
      ground (arith, lookup-collect_absent g (key x) xs u.0),
      All-map₂ (λ y d e. ground (arith, d, e)) xs u.0 (lookup-collect g xs u.1),
    )

    -- A key is among the collected rows if it can be looked up.
    pub elem-collect :
        (k : ℕ) (ps : List (A × B)) → elem k (map (λ (x, b). key x) ps) ≡ is_some (lookup k ps)
    elem-collect k [] = refl
    elem-collect k ((x, b) ∷ ps) = ground (arith, elem-collect k ps)

  UniqueKeys-select_head :
      (p : A → Bool) (k : ℕ) (xs : List A)
      → All (λ y. key y ≢ k) xs
      → All (λ y. key y ≢ k) (select p xs)
  UniqueKeys-select_head p k [] h = tt
  UniqueKeys-select_head p k (x ∷ xs) h = elim (Bool-cases (p x)) [
    | inl e ↦ rw e (h.0, UniqueKeys-select_head p k xs h.1)
    | inr e ↦ rw e (UniqueKeys-select_head p k xs h.1)
  ]

  pub UniqueKeys-select : (p : A → Bool) (xs : List A) → UniqueKeys xs → UniqueKeys (select p xs)
  UniqueKeys-select p [] u = tt
  UniqueKeys-select p (x ∷ xs) u = elim (Bool-cases (p x)) [
    | inl e ↦ rw e (UniqueKeys-select_head p (key x) xs u.0, UniqueKeys-select p xs u.1)
    | inr e ↦ rw e (UniqueKeys-select p xs u.1)
  ]

  -- The items of a dictionary built from keys: of equal keys the first place is kept.
  abbrev pub fresh_keys : List ℕ → List A → List A
  fresh_keys seen [] = []
  fresh_keys seen (x ∷ xs) =
      if elem (key x) seen then fresh_keys seen xs else x ∷ fresh_keys (key x ∷ seen) xs

  fresh_keys-unseen :
      (seen : List ℕ) (xs : List A)
      → UniqueKeys xs
      → All (λ x. elem (key x) seen ≡ false) xs
      → fresh_keys seen xs ≡ xs
  fresh_keys-unseen seen [] u n = refl
  fresh_keys-unseen seen (x ∷ xs) u n = ground (
    arith,
    n.0,
    fresh_keys-unseen (key x ∷ seen) xs u.1 (All-map₂ (λ y d e. ground (arith, d, e)) xs u.0 n.1),
  )

  none_seen : (xs : List A) → All (λ x. elem (key x) [] ≡ false) xs
  none_seen [] = tt
  none_seen (x ∷ xs) = (refl, none_seen xs)

  pub fresh_keys-eq_self : (xs : List A) → UniqueKeys xs → fresh_keys [] xs ≡ xs
  fresh_keys-eq_self xs u = fresh_keys-unseen [] xs u (none_seen xs)

module _ {ℓ κ} {A : Type ℓ} {B : Type κ} (key : A → ℕ) (key' : B → ℕ) where
  UniqueKeys-map_head :
      (f : A → B) (k : ℕ) (xs : List A)
      → ((x : A) → key' (f x) ≡ key x)
      → All (λ y. key y ≢ k) xs
      → All (λ y. key' y ≢ k) (map f xs)
  UniqueKeys-map_head f k [] e h = tt
  UniqueKeys-map_head f k (x ∷ xs) e h =
      (λ q. h.0 (sym (e x) ∙ q), UniqueKeys-map_head f k xs e h.1)

  -- An update that leaves the keys alone keeps them distinct.
  pub UniqueKeys-map :
      (f : A → B) (xs : List A)
      → ((x : A) → key' (f x) ≡ key x)
      → UniqueKeys key xs
      → UniqueKeys key' (map f xs)
  UniqueKeys-map f [] e u = tt
  UniqueKeys-map f (x ∷ xs) e u =
      (rw (e x) (UniqueKeys-map_head f (key x) xs e u.0), UniqueKeys-map f xs e u.1)

  -- A row is found by its key before and after such an update.
  pub find?-map :
      (f : A → B) (k : ℕ) (xs : List A)
      → ((x : A) → key' (f x) ≡ key x)
      → find? (λ y. key' y == k) (map f xs) ≡ Option.map f (find? (λ x. key x == k) xs)
  find?-map f k [] e = refl
  find?-map f k (x ∷ xs) e = ground (arith, e x, find?-map f k xs e)
