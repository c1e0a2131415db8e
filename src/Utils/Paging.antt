-- ===== src/Utils/Paging.antt =====
-- Paging: `iterate_queryset` and `iterate_list` of apps/utils/misc.py, and the task
-- `update_search_vector_for_model` of apps/tracker/tasks/search.py, which pages through the rows that
-- a query gives. The pages are read from a replica, so that the updates do not show in them.
pub mod Laws
use swat4stats.Base.{
  ℕ, zero, suc, ◌+◌, Bool, Option, none, some, List, [], ◌∷◌, map, ltb, if◌then◌else◌, length, take,
  drop,
}
use mathlib.Core.Option
use swat4stats.Base.Table.{select}
use swat4stats.Base.Sort.{sorted}

module _ {A : Type 0} where
  -- `chunk[-1]`, where the chunk is not empty
  abbrev pub last? : List A → Option A
  last? [] = none
  last? (x ∷ []) = some x
  last? (x ∷ y ∷ xs) = last? (y ∷ xs)

  -- `iterate_list`: `none` is the `ValueError` of a step of zero
  unfoldable pub slices : ℕ → ℕ → List A → List (List A)
  slices zero size xs = []
  slices (suc fuel) size [] = []
  slices (suc fuel) size (x ∷ xs) = take size (x ∷ xs) ∷ slices fuel size (drop size (x ∷ xs))

  unfoldable pub iterate_list : List A → ℕ → Option (List (List A))
  unfolding slices
  iterate_list xs zero = none
  iterate_list xs (suc size) = some (slices (length xs) (suc size) xs)

  module _ (pk : A → ℕ) where
    -- `queryset.order_by("pk")`
    unfoldable pub order_by_pk : List A → List A
    unfolding sorted
    order_by_pk = sorted (λ x y. ltb (pk x) (pk y))

    -- `queryset.filter(pk__gt=last_pk)[:chunk_size]`
    unfoldable pub page : ℕ → ℕ → List A → List A
    page last_pk size rows = take size (select (λ x. ltb last_pk (pk x)) rows)

    -- The loop, on the ordered rows: `none` where the fuel is used up, or where a page of size
    -- zero has no last row.
    unfoldable pub pages : ℕ → ℕ → ℕ → List A → Option (List (List A))
    unfolding page
    pages zero last_pk size rows = none
    pages (suc fuel) last_pk size rows =
        let chunk = page last_pk size rows in
        elim (last? chunk) [
          | none ↦ if ltb (length chunk) size then some (chunk ∷ []) else none
          | some x ↦
              let rest = pages fuel (pk x) size rows in
              if ltb (length chunk) size
              then some (chunk ∷ [])
              else Option.map (λ chunks. chunk ∷ chunks) rest
        ]

    -- `iterate_queryset`
    unfoldable pub iterate_queryset : ℕ → List A → ℕ → Option (List (List A))
    unfolding order_by_pk pages
    iterate_queryset fuel rows size = pages fuel 0 size (order_by_pk rows)

-- `update_search_vector_for_model`: one update for each page of the rows that require it. `clock i`
-- is the moment of the update of page `i`, counted from 0.
module _ {A : Type 0} (pk : A → ℕ) (require : List A → List A)
    (update : ℕ → List ℕ → List A → List A) (clock : ℕ → ℕ) where
  unfoldable pub update_each : ℕ → List (List A) → List A → List A
  update_each i [] rows = rows
  update_each i (chunk ∷ chunks) rows =
      update_each (i + 1) chunks (update (clock i) (map pk chunk) rows)

  unfoldable pub update_search_vector_for_model : ℕ → ℕ → List A → Option (List A)
  unfolding iterate_queryset update_each
  update_search_vector_for_model fuel chunk_size rows =
      Option.map (λ chunks. update_each 0 chunks rows)
        (iterate_queryset pk fuel (require rows) chunk_size)
