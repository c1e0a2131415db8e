-- ===== src/Stats/Rank.antt =====
-- `rank`: positions by points within a category and a group. The replica that the code reads from
-- is taken to agree with the table.
use swat4stats.Base.{
  ℕ, suc, Bool, true, false, ◌&&◌, ◌||◌, not, Option, none, some, List, [], ◌∷◌, ◌==◌,
  if◌then◌else◌, elem, is_some, ltb, map,
}
use swat4stats.Base.Int.{ℤ, ltb_ℤ, leb_ℤ}
use swat4stats.Base.Table.{select, update_where, count_where, exists}
use swat4stats.Base.Keys.{lookup, collect}
use swat4stats.Stats.{Stat, same_partition}

-- `order_by=[points desc, id asc]`: the row `r` stands before `s`
unfoldable pub before : Stat → Stat → Bool
before r s = ltb_ℤ s.points r.points || leb_ℤ s.points r.points && ltb r.pk s.pk

-- The arguments of a call: `cats` and `exclude_cats` are lists of categories, `qualify` pairs of a
-- category and the points that are enough in it, and `filters` an extra test on the rows.
pub record Query : Type 0 where
  pub year : ℕ
  pub cats : Option (List ℕ)
  pub exclude_cats : Option (List ℕ)
  pub qualify : Option (List (ℕ × ℤ))
  pub filters : Stat → Bool

-- `if cats: … elif exclude_cats: …`, where an empty list counts as missing
unfoldable pub in_categories : Option (List ℕ) → Option (List ℕ) → Stat → Bool
in_categories (some (c ∷ cs)) ex r = elem r.category (c ∷ cs)
in_categories (some []) (some (c ∷ cs)) r = not (elem r.category (c ∷ cs))
in_categories none (some (c ∷ cs)) r = not (elem r.category (c ∷ cs))
in_categories (some []) (some []) r = true
in_categories (some []) none r = true
in_categories none (some []) r = true
in_categories none none r = true

-- The `Exists` clauses: the profile has enough points in each category that qualifies, in the
-- same year and group.
unfoldable pub qualified : ℕ → List (ℕ × ℤ) → List Stat → Stat → Bool
qualified year [] rows r = true
qualified year ((c, enough) ∷ qs) rows r =
    exists
      (λ s.
        s.profile == r.profile
        && s.year == year
        && s.category == c
        && leb_ℤ enough s.points
        && s.group == r.group)
      rows
    && qualified year qs rows r

unfoldable pub qualify_rows : ℕ → Option (List (ℕ × ℤ)) → List Stat → Stat → Bool
qualify_rows year none rows r = true
qualify_rows year (some qs) rows r = qualified year qs rows r

-- `if qualify`: an empty dictionary does not clear.
abbrev pub clears : Option (List (ℕ × ℤ)) → Bool
clears none = false
clears (some []) = false
clears (some (q ∷ qs)) = true

-- `filter(filters, year=year)`
unfoldable pub is_ranked : Query → List Stat → Stat → Bool
is_ranked q rows r =
    q.filters r
    && in_categories q.cats q.exclude_cats r
    && qualify_rows q.year q.qualify rows r
    && r.year == q.year

-- `ROW_NUMBER() OVER (PARTITION BY … ORDER BY …)` among the selected rows
unfoldable pub row_number : List Stat → Stat → ℕ
row_number selected r = suc (count_where (λ s. same_partition s r && before s r) selected)

-- `positions_per_cat[category]`: the rows of a category with their positions
unfoldable pub positions : List Stat → ℕ → List (Stat × ℕ)
positions selected c =
    collect (λ (r : Stat). r.pk)
      (λ r. if r.category == c then some (row_number selected r) else none) selected

-- Clearing the category for the year, where the call has qualifications.
unfoldable pub clear_positions : Bool → ℕ → ℕ → List Stat → List Stat
clear_positions false year c rows = rows
clear_positions true year c rows =
    update_where (λ r. r.year == year && r.category == c && is_some r.position)
      (λ r. record r { position = none }) rows

-- `position_for[item.pk]`, where the row is one of the chunk's
unfoldable pub assign : List (Stat × ℕ) → Stat → Stat
assign ps r = elim (lookup (λ (s : Stat). s.pk) r.pk ps) [
  | none ↦ r
  | some n ↦ record r { position = some n }
]

-- The update of one category; the chunks of a thousand rows are one dictionary here.
unfoldable pub rank_category : Query → List Stat → ℕ → List Stat → List Stat
rank_category q selected c rows =
    map (assign (positions selected c)) (clear_positions (clears q.qualify) q.year c rows)

-- The categories of the selected rows, each once, in the order of their first rows.
unfoldable pub categories : List ℕ → List Stat → List ℕ
categories seen [] = []
categories seen (r ∷ rows) =
    if elem r.category seen
    then categories seen rows
    else r.category ∷ categories (r.category ∷ seen) rows

unfoldable pub rank_categories : Query → List Stat → List ℕ → List Stat → List Stat
rank_categories q selected [] rows = rows
rank_categories q selected (c ∷ cs) rows =
    rank_categories q selected cs (rank_category q selected c rows)

unfoldable pub rank : Query → List Stat → List Stat
rank q rows =
    let selected = select (is_ranked q rows) rows in
    rank_categories q selected (categories [] selected) rows
