-- ===== src/Stats/Save.antt =====
-- `save_stats` and `save_grouped_stats`.
use swat4stats.Base.{
  ℕ, ◌+◌, ◌≡◌, refl, Bool, false, ◌&&◌, Option, none, some, List, [], ◌∷◌, arith, ◌==◌,
  if◌then◌else◌, is_none,
}
use swat4stats.Base.Int.{ℤ, pos, negsuc, leb_ℤ}
use swat4stats.Base.Table.{find?}
use swat4stats.Stats.{Stat, Key, has_key}
use mathlib.Core.Option

-- The table, and the key that the next new row gets.
pub record StatTable : Type 0 where
  pub rows : List Stat
  pub next_pk : ℕ

-- `INSERT … ON CONFLICT (…) DO UPDATE SET points`, for one row
unfoldable pub upsert_row : ℕ → Key → ℤ → List Stat → List Stat
upsert_row pk k points [] =
    record {
      pk = pk;
      category = k.category;
      group = k.group;
      year = k.year;
      profile = k.profile;
      points = points;
      position = none;
    }
    ∷ []
upsert_row pk k points (r ∷ rows) =
    if has_key k r then record r { points = points } ∷ rows else r ∷ upsert_row pk k points rows

unfoldable pub upsert : Key → ℤ → StatTable → StatTable
upsert k points t = record t {
  rows = upsert_row t.next_pk k points t.rows;
  next_pk = t.next_pk + 1;
}

-- `if not points or points <= 0: continue`; the points that are saved
unfoldable pub saved_points : Option ℤ → Option ℤ
saved_points none = none
saved_points (some p) = if leb_ℤ p (pos 0) then none else some p

abbrev pub item_key : ℕ → ℕ → ℕ → ℕ → Key
item_key profile year group category = record {
  category = category;
  group = group;
  year = year;
  profile = profile;
}

-- The part of the bulk insert that an item makes: none, where it was skipped.
unfoldable pub store : Key → Option ℤ → StatTable → StatTable
store k none t = t
store k (some p) t = upsert k p t

-- One round of the loop over the items.
unfoldable pub save_item : ℕ → ℕ → ℕ → ℕ × Option ℤ → StatTable → StatTable
save_item profile year group (category, points) t =
    store (item_key profile year group category) (saved_points points) t

-- `save_stats`: the items are a dictionary from categories to points, which may be NULL.
unfoldable pub save_stats : ℕ → ℕ → ℕ → List (ℕ × Option ℤ) → StatTable → StatTable
save_stats profile year group [] t = t
save_stats profile year group (item ∷ items) t =
    save_stats profile year group items (save_item profile year group item t)

-- `save_grouped_stats`
unfoldable pub save_grouped_stats : ℕ → ℕ → List (ℕ × List (ℕ × Option ℤ)) → StatTable → StatTable
save_grouped_stats profile year [] t = t
save_grouped_stats profile year ((group, items) ∷ rest) t =
    save_grouped_stats profile year rest (save_stats profile year group items t)

-- The points and the position that the table holds for a key.
abbrev pub points_at : Key → StatTable → Option ℤ
points_at k t = Option.map (λ (r : Stat). r.points) (find? (has_key k) t.rows)

abbrev pub position_at : Key → StatTable → Option (Option ℕ)
position_at k t = Option.map (λ (r : Stat). r.position) (find? (has_key k) t.rows)

abbrev pub same_key : Key → Key → Bool
same_key j k =
    j.category == k.category && j.group == k.group && j.year == k.year && j.profile == k.profile

-- A number that is there and greater than zero.
abbrev pub positive : Option ℤ → Option ℤ
positive none = none
positive (some (negsuc n)) = none
positive (some (pos n)) = if n == 0 then none else some (pos n)

-- The positive points that a dictionary of items has for a category.
abbrev pub item_points : ℕ → List (ℕ × Option ℤ) → Option ℤ
item_points c [] = none
item_points c ((d, p) ∷ items) = if d == c then positive p else item_points c items

saved_points-positive : (p : Option ℤ) → saved_points p ≡ positive p
unfolding saved_points
saved_points-positive none = refl
saved_points-positive (some (negsuc n)) = ground arith
saved_points-positive (some (pos n)) = ground arith

-- No category stands twice among the items.
abbrev pub IsAbsent : ℕ → List (ℕ × Option ℤ) → Type 0
IsAbsent c [] = Unit
IsAbsent c ((d, p) ∷ items) = ((d == c) ≡ false) × IsAbsent c items

abbrev pub IsDict : List (ℕ × Option ℤ) → Type 0
IsDict [] = Unit
IsDict ((c, p) ∷ items) = IsAbsent c items × IsDict items

points-upsert_row :
    (pk : ℕ) (j k : Key) (p : ℤ) (rows : List Stat)
    → Option.map (λ (r : Stat). r.points) (find? (has_key k) (upsert_row pk j p rows)) ≡ (
        if same_key j k
        then some p
        else Option.map (λ (r : Stat). r.points) (find? (has_key k) rows))
unfolding upsert_row
points-upsert_row pk j k p [] = ground arith
points-upsert_row pk j k p (r ∷ rows) = ground (arith, points-upsert_row pk j k p rows)

position-upsert_row :
    (pk : ℕ) (j k : Key) (p : ℤ) (rows : List Stat)
    → Option.map (λ (r : Stat). r.position) (find? (has_key k) (upsert_row pk j p rows)) ≡ (
        if same_key j k && is_none (find? (has_key k) rows)
        then some none
        else Option.map (λ (r : Stat). r.position) (find? (has_key k) rows))
unfolding upsert_row
position-upsert_row pk j k p [] = ground arith
position-upsert_row pk j k p (r ∷ rows) = ground (arith, position-upsert_row pk j k p rows)

-- Whether a key is one of the profile's, for the year and the group.
abbrev pub belongs : ℕ → ℕ → ℕ → Key → Bool
belongs profile year group k = k.profile == profile && k.year == year && k.group == group

-- The new value where there is one, else the old.
abbrev pub update_with : Option ℤ → Option ℤ → Option ℤ
update_with none old = old
update_with (some p) old = some p

store-points :
    (j k : Key) (points : Option ℤ) (t : StatTable)
    → points_at k (store j points t)
      ≡ (if same_key j k then update_with points (points_at k t) else points_at k t)
unfolding store upsert
store-points j k none t = ground arith
store-points j k (some p) t = points-upsert_row t.next_pk j k p t.rows

store-position :
    (j k : Key) (points : Option ℤ) (t : StatTable) (q : Option ℕ)
    → position_at k t ≡ some q
    → position_at k (store j points t) ≡ some q
unfolding store upsert
store-position j k none t q e = e
store-position j k (some p) t q e = ground (arith, position-upsert_row t.next_pk j k p t.rows)

item_points-IsAbsent :
    (c : ℕ) (items : List (ℕ × Option ℤ)) → IsAbsent c items → item_points c items ≡ none
item_points-IsAbsent c [] h = refl
item_points-IsAbsent c ((d, p) ∷ items) h = ground (arith, item_points-IsAbsent c items h.1)

-- After a profile's items, with no category twice, are saved for a year and a group, the table holds for each key: the
-- item's points, where the key is the profile's for that year and group and they are greater than 0,
-- and otherwise what it held before.
pub save_stats-points :
    (profile year group : ℕ) (items : List (ℕ × Option ℤ)) (t : StatTable) (k : Key)
    → IsDict items
    → points_at k (save_stats profile year group items t) ≡ (
        if belongs profile year group k
        then update_with (item_points k.category items) (points_at k t)
        else points_at k t)
unfolding save_stats save_item
save_stats-points profile year group [] t k d = ground arith
save_stats-points profile year group ((c, p) ∷ items) t k d = ground (
  arith,
  save_stats-points profile year group items (save_item profile year group (c, p) t) k d.1,
  store-points (item_key profile year group c) k (saved_points p) t,
  saved_points-positive p,
  item_points-IsAbsent k.category items,
  d.0,
)

-- Saving items never moves a row that is ranked: its position stays, also where its points change.
pub save_stats-position :
    (profile year group : ℕ) (items : List (ℕ × Option ℤ)) (t : StatTable) (k : Key) (q : Option ℕ)
    → position_at k t ≡ some q
    → position_at k (save_stats profile year group items t) ≡ some q
unfolding save_stats save_item
save_stats-position profile year group [] t k q e = e
save_stats-position profile year group ((c, p) ∷ items) t k q e =
    save_stats-position profile year group items _ k q
      (store-position (item_key profile year group c) k (saved_points p) t q e)
