-- ===== src/Utils/Paging/Laws.antt =====
-- Paging by key visits every row once, in the order of the keys.
use swat4stats.Base.{
  ℕ, zero, suc, ◌<◌, ◌≤◌, ◌≡◌, ◌≢◌, refl, sym, ap, ◌∙◌, Bool, true, false, Option, some, List, [],
  ◌∷◌, ◌++◌, arith, ltb, length, take, drop, All, take-append-drop, length-drop, Bool-cases,
  Option-cases, inl, inr,
}
use mathlib.Core.Path.{subst}
use mathlib.Core.List.{append-nil}
use mathlib.Core.Option
use swat4stats.Base.Table.{select}
use swat4stats.Base.Keys.{UniqueKeys}
use swat4stats.Base.Sort.{IsSorted, IsSortedFrom, sorted-IsSorted, length-sorted}
use swat4stats.Base.Enumerate.{All-sorted, UniqueKeys-sorted}
use swat4stats.Utils.Paging.{last?, slices, order_by_pk, page, pages, iterate_queryset}

module _ {A : Type 0} where
  -- `itertools.chain.from_iterable`
  abbrev pub chain : List (List A) → List A
  chain [] = []
  chain (xs ∷ xss) = xs ++ chain xss

  chain-slices :
      (fuel size : ℕ) (xs : List A) → length xs ≤ fuel → chain (slices fuel (suc size) xs) ≡ xs
  unfolding slices
  chain-slices zero size [] h = refl
  chain-slices zero size (x ∷ xs) h = absurd (omega (arith, h))
  chain-slices (suc fuel) size [] h = refl
  chain-slices (suc fuel) size (x ∷ xs) h =
      ap (λ t. take (suc size) (x ∷ xs) ++ t)
        (chain-slices fuel size (drop size xs) (omega (arith, length-drop size xs, h)))
      ∙ take-append-drop (suc size) (x ∷ xs)

  module _ (pk : A → ℕ) where
    -- Strictly ascending keys, all above a bound.
    abbrev pub IsAscending : ℕ → List A → Type 0
    IsAscending k [] = Unit
    IsAscending k (x ∷ xs) = (k < pk x) × IsAscending (pk x) xs

    IsAscending-weaken : (j k : ℕ) (xs : List A) → j ≤ k → IsAscending k xs → IsAscending j xs
    IsAscending-weaken j k [] h s = tt
    IsAscending-weaken j k (x ∷ xs) h s = (omega arith, s.1)

    select_above : (k : ℕ) (xs : List A) → IsAscending k xs → select (λ x. ltb k (pk x)) xs ≡ xs
    select_above k [] s = refl
    select_above k (x ∷ xs) s =
        ground
          (arith, s.0, select_above k xs (IsAscending-weaken k (pk x) xs (omega (arith, s.0)) s.1))

    select-select :
        (j k : ℕ) (xs : List A)
        → j ≤ k
        → select (λ x. ltb k (pk x)) (select (λ x. ltb j (pk x)) xs) ≡ select (λ x. ltb k (pk x)) xs
    select-select j k [] h = refl
    select-select j k (x ∷ xs) h = ground (arith, select-select j k xs h)

    -- What is left behind the last row of a page.
    record IsLast (k : ℕ) (xs rest : List A) (x : A) : Type 0 where
      above : k < pk x
      left : select (λ y. ltb (pk x) (pk y)) xs ≡ rest
      ascending : IsAscending (pk x) rest

    take-IsLast :
        (n k : ℕ) (xs : List A) (x : A)
        → IsAscending k xs
        → last? (take (suc n) xs) ≡ some x
        → IsLast k xs (drop (suc n) xs) x
    take-IsLast n k [] x s e = absurd (Option.none-ne-some x e)
    take-IsLast zero k (y ∷ xs) x s e =
        subst (IsLast k (y ∷ xs) xs) (Option.some-injective y x e) (record {
          above = s.0;
          left = ground (arith, select_above (pk y) xs s.1);
          ascending = s.1;
        })
    take-IsLast (suc n) k (y ∷ []) x s e =
        subst (IsLast k (y ∷ []) []) (Option.some-injective y x e)
          (record { above = s.0; left = ground arith; ascending = tt })
    take-IsLast (suc n) k (y ∷ z ∷ xs) x s e =
        let rest = take-IsLast n (pk y) (z ∷ xs) x s.1 e in
        record {
          above = omega (arith, s.0, rest.above);
          left = ground (arith, rest.above, rest.left);
          ascending = rest.ascending;
        }

    take_short :
        (n : ℕ) (xs : List A) → ltb (length (take (suc n) xs)) (suc n) ≡ true → take (suc n) xs ≡ xs
    take_short n [] h = refl
    take_short zero (x ∷ xs) h = absurd (ground arith)
    take_short (suc n) (x ∷ xs) h = ap (λ t. x ∷ t) (take_short n xs (ground arith))

    take_full :
        (n : ℕ) (xs : List A)
        → ltb (length (take (suc n) xs)) (suc n) ≡ false
        → (x : A) × (last? (take (suc n) xs) ≡ some x)
    take_full n [] h = absurd (ground arith)
    take_full zero (x ∷ xs) h = (x, refl)
    take_full (suc n) (x ∷ []) h = (x, refl)
    take_full (suc n) (x ∷ y ∷ xs) h = take_full n (y ∷ xs) (ground arith)

    length-take : (n : ℕ) (xs : List A) → length (take n xs) ≤ n
    length-take zero xs = omega arith
    length-take (suc n) [] = omega arith
    length-take (suc n) (x ∷ xs) = omega (arith, length-take n xs)

    -- The pages of what is left.
    abbrev pub ArePages : ℕ → List A → Option (List (List A)) → Type 0
    ArePages size xs result =
        (chunks : List (List A)) × (result ≡ some chunks)
        × (chain chunks ≡ xs)
        × All (λ chunk. length chunk ≤ size) chunks

    pages-short :
        (fuel k size : ℕ) (rows chunk : List A)
        → page pk k size rows ≡ chunk
        → ltb (length chunk) size ≡ true
        → pages pk (suc fuel) k size rows ≡ some (chunk ∷ [])
    unfolding pages
    pages-short fuel k size rows chunk e h = elim (Option-cases (last? chunk)) [
      | inl l ↦ rw (pages, e, l, e, h) refl
      | inr (x, l) ↦ rw (pages, e, l, e, h) refl
    ]

    pages-full :
        (fuel k size : ℕ) (rows chunk : List A) (x : A) (chunks : List (List A))
        → page pk k size rows ≡ chunk
        → last? chunk ≡ some x
        → ltb (length chunk) size ≡ false
        → pages pk fuel (pk x) size rows ≡ some chunks
        → pages pk (suc fuel) k size rows ≡ some (chunk ∷ chunks)
    unfolding pages
    pages-full fuel k size rows chunk x chunks e l h r = rw (pages, e, l, e, h, r) refl

    drop_shorter :
        (n m : ℕ) (xs : List A)
        → ltb (length (take (suc n) xs)) (suc n) ≡ false
        → length xs < suc m
        → length (drop (suc n) xs) < m
    drop_shorter n m [] h k = absurd (ground arith)
    drop_shorter n m (x ∷ xs) h k = omega (arith, length-drop n xs, k)

    pages-ArePages :
        (fuel k size : ℕ) (rows rest : List A)
        → select (λ x. ltb k (pk x)) rows ≡ rest
        → IsAscending k rest
        → length rest < fuel
        → ArePages (suc size) rest (pages pk fuel k (suc size) rows)
    unfolding page
    pages-ArePages zero k size rows rest e s h = absurd (omega (arith, h))
    pages-ArePages (suc fuel) k size rows rest e s h =
        let chunk = take (suc size) rest in
        let first : page pk k (suc size) rows ≡ chunk = rw (page, e) refl in
        elim (Bool-cases (ltb (length (take (suc size) rest)) (suc size))) [
          | inl short ↦ (
            chunk ∷ [],
            pages-short fuel k (suc size) rows chunk first short,
            append-nil chunk ∙ take_short size rest short,
            (length-take (suc size) rest, tt),
          )
          | inr full ↦
              let (x, found) = take_full size rest full in
              let l = take-IsLast size k rest x s found in
              let left : select (λ y. ltb (pk x) (pk y)) rows ≡ drop (suc size) rest =
                sym (select-select k (pk x) rows (omega (arith, l.above)))
                ∙ ap (select (λ y. ltb (pk x) (pk y))) e
                ∙ l.left in
              let (chunks, runs, whole, sizes) =
                pages-ArePages fuel (pk x) size rows (drop (suc size) rest) left l.ascending
                  (drop_shorter size fuel rest full h) in
              (
                chunk ∷ chunks,
                pages-full fuel k (suc size) rows chunk x chunks first found full runs,
                ap (λ t. chunk ++ t) whole ∙ take-append-drop (suc size) rest,
                (length-take (suc size) rest, sizes),
              )
        ]

    sorted-IsAscending :
        (k : ℕ) (xs : List A)
        → All (λ x. k < pk x) xs
        → UniqueKeys pk xs
        → IsSorted (λ x y. ltb (pk x) (pk y)) xs
        → IsAscending k xs
    sorted-IsAscending k [] above u s = tt
    sorted-IsAscending k (x ∷ xs) above u s =
        (above.0, sorted-IsAscending (pk x) xs (later x xs u.0 s.0) u.1 s.1)
      where
        later :
            (x : A) (xs : List A)
            → All (λ y. pk y ≢ pk x) xs
            → IsSortedFrom (λ x y. ltb (pk x) (pk y)) x xs
            → All (λ y. pk x < pk y) xs
        later x [] d s = tt
        later x (y ∷ xs) d s = (ground (arith, d.0, s.0), later x xs d.1 s.1)

    -- On rows with distinct positive keys and with a positive page size, one round more than there
    -- are rows is enough for `iterate_queryset`, its pages are no longer than asked, and one behind
    -- the other they are the rows in the order of their keys, each once.
    pub iterate_queryset-ArePages :
        (rows : List A) (size : ℕ)
        → UniqueKeys pk rows
        → All (λ x. 0 < pk x) rows
        → ArePages
            (suc size)
            (order_by_pk pk rows)
            (iterate_queryset pk (suc (length rows)) rows (suc size))
    unfolding iterate_queryset order_by_pk
    iterate_queryset-ArePages rows size u above =
        let before : A → A → Bool = λ x y. ltb (pk x) (pk y) in
        let ascending =
          sorted-IsAscending 0 (order_by_pk pk rows) (All-sorted before (λ x. 0 < pk x) rows above)
            (UniqueKeys-sorted before pk rows u)
            (sorted-IsSorted before (λ x y h. ground arith) (λ x y z h k. ground arith) rows) in
        pages-ArePages (suc (length rows)) 0 size (order_by_pk pk rows) (order_by_pk pk rows)
          (select_above 0 (order_by_pk pk rows) ascending) ascending
          (omega (arith, length-sorted before rows))
