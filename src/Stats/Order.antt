-- ===== src/Stats/Order.antt =====
-- What one call of `rank` does to each row of the table.
use swat4stats.Base.{
  ℕ, ◌≡◌, refl, sym, ap, ◌∙◌, Bool, true, false, ◌&&◌, ◌||◌, none, some, List, [], ◌∷◌, map, arith,
  ◌==◌, if◌then◌else◌, elem, is_some, All, All-all, All-map,
}
use swat4stats.Base.Table.{select, exists, map_congr}
use swat4stats.Base.Keys.{UniqueKeys, lookup, collect-select, lookup-collect}
use swat4stats.Stats.{Stat}
use swat4stats.Stats.Rank.{
  Query, is_ranked, clears, row_number, positions, clear_positions, assign, rank_category,
  categories, rank_categories, rank,
}
use mathlib.Core.List.{map-map, map-id}

abbrev pub pk : Stat → ℕ
pk r = r.pk

abbrev clear_stage : Bool → ℕ → ℕ → Stat → Stat
clear_stage b year c r =
    if b && (r.year == year && r.category == c && is_some r.position)
    then record r { position = none }
    else r

clear_positions-map :
    (b : Bool) (year c : ℕ) (rows : List Stat)
    → clear_positions b year c rows ≡ map (clear_stage b year c) rows
unfolding clear_positions
clear_positions-map false year c rows = sym (map-id rows)
clear_positions-map true year c rows = refl

elem-categories :
    (c : ℕ) (seen : List ℕ) (rows : List Stat)
    → (elem c (categories seen rows) || elem c seen)
      ≡ (exists (λ s. s.category == c) rows || elem c seen)
unfolding categories
elem-categories c seen [] = refl
elem-categories c seen (r ∷ rows) = ground (
  arith,
  elem-categories c seen rows,
  elem-categories c (r.category ∷ seen) rows,
  elem-eq c r.category seen,
)
  where
    elem-eq : (a b : ℕ) (seen : List ℕ) → (a == b) ≡ true → elem a seen ≡ elem b seen
    elem-eq a b seen e = ground arith

exists-select_self :
    (p : Stat → Bool) (rows : List Stat)
    → All (λ r. p r ≡ true → exists (λ s. s.category == r.category) (select p rows) ≡ true) rows
exists-select_self p [] = tt
exists-select_self p (r ∷ rows) = (
  (λ e. ground (arith, e)),
  All-map (λ s h e. ground (arith, h)) rows (exists-select_self p rows),
)

module _ (q : Query) (rows : List Stat) where
  abbrev pub selected : List Stat
  selected = select (is_ranked q rows) rows

  -- The row once its category has been dealt with.
  abbrev settled : Stat → Stat
  settled r =
      if is_ranked q rows r
      then record r { position = some (row_number selected r) }
      else if clears q.qualify && r.year == q.year
      then record r { position = none }
      else r

  -- The row while the categories of `done` have been dealt with.
  abbrev upto : List ℕ → Stat → Stat
  upto done r = if elem r.category done then settled r else r

  -- The row after the call. A selected row has its place as position. A call with qualifications
  -- clears the other rows of the year in each category in which some row was selected, whatever
  -- the filters say of them.
  abbrev pub ranked : Stat → Stat
  ranked r =
      if is_ranked q rows r
      then record r { position = some (row_number selected r) }
      else if clears q.qualify
          && r.year == q.year
          && exists (λ s. s.category == r.category) selected
      then record r { position = none }
      else r

  position_known :
      (c : ℕ)
      → UniqueKeys pk rows
      → All
          (λ r. lookup pk r.pk (positions selected c) ≡ (
            if is_ranked q rows r
            then (if r.category == c then some (row_number selected r) else none)
            else none))
          rows
  unfolding positions
  position_known c u = rw collect-select (lookup-collect pk _ rows u)

  category_point :
      (c : ℕ) (done : List ℕ) (r : Stat)
      → lookup pk r.pk (positions selected c) ≡ (
          if is_ranked q rows r
          then (if r.category == c then some (row_number selected r) else none)
          else none)
      → assign (positions selected c) (clear_stage (clears q.qualify) q.year c (upto done r))
        ≡ upto (c ∷ done) r
  unfolding assign
  category_point c done r e = ground (arith, e)

  rank_category-upto :
      (c : ℕ) (done : List ℕ)
      → UniqueKeys pk rows
      → rank_category q selected c (map (upto done) rows) ≡ map (upto (c ∷ done)) rows
  unfolding rank_category
  rank_category-upto c done u =
      ap (map (assign (positions selected c))) (
        clear_positions-map (clears q.qualify) q.year c (map (upto done) rows)
        ∙ map-map (clear_stage (clears q.qualify) q.year c) (upto done) rows)
      ∙ map-map (assign (positions selected c))
          (λ r. clear_stage (clears q.qualify) q.year c (upto done r)) rows
      ∙ map_congr
          (λ r.
            assign (positions selected c) (clear_stage (clears q.qualify) q.year c (upto done r)))
          (upto (c ∷ done)) rows (All-map (category_point c done) rows (position_known c u))

  swap_done :
      (x y : Bool) (r : Stat) (c : ℕ)
      → (if x || (r.category == c || y) then settled r else r)
        ≡ (if (r.category == c || x) || y then settled r else r)
  swap_done x y r c = ground arith

  rank_categories-upto :
      (cs done : List ℕ)
      → UniqueKeys pk rows
      → rank_categories q selected cs (map (upto done) rows)
        ≡ map (λ r. if elem r.category cs || elem r.category done then settled r else r) rows
  unfolding rank_categories
  rank_categories-upto [] done u = refl
  rank_categories-upto (c ∷ cs) done u =
      ap (rank_categories q selected cs) (rank_category-upto c done u)
      ∙ rank_categories-upto cs (c ∷ done) u
      ∙ map_congr _ _ rows
          (All-all _ (λ r. swap_done (elem r.category cs) (elem r.category done) r c) rows)

  ranked_point :
      (r : Stat)
      → (is_ranked q rows r ≡ true → exists (λ s. s.category == r.category) selected ≡ true)
      → (if elem r.category (categories [] selected) || false then settled r else r) ≡ ranked r
  ranked_point r h = ground (arith, h, elem-categories r.category [] selected)

  -- Where the rows have distinct keys, the call gives each row that it selects its number in its
  -- partition; with qualifications it takes the position of every other row of the year in a
  -- category in which some row was selected, whatever the filters say of the row; and it leaves
  -- the other rows as they are.
  pub rank-ranked : UniqueKeys pk rows → rank q rows ≡ map ranked rows
  unfolding rank
  rank-ranked u =
      ap (rank_categories q selected (categories [] selected)) (sym (map-id rows))
      ∙ rank_categories-upto (categories [] selected) [] u
      ∙ map_congr _ _ rows (All-map ranked_point rows (exists-select_self (is_ranked q rows) rows))
