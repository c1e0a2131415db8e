-- ===== src/Stats.antt =====
-- Annual statistics (apps/tracker/managers/stats.py): saving a profile's points and ranking the
-- rows of a year. One record stands for the rows of all five models: `group` is the map, game
-- type, server or weapon of the row, and 0 for `PlayerStats`, which has no such column. A category
-- is its number in `LegacyStatCategory`. Points, which the database holds as floats rounded to
-- four digits, are integers in ten-thousandths.
pub mod Save
pub mod Rank
pub mod Order
pub mod Positions
pub mod Annual
pub mod Kept
mod Tests
use swat4stats.Base.{ℕ, Bool, ◌&&◌, Option, ◌==◌}
use swat4stats.Base.Int.{ℤ}

pub record Stat : Type 0 where
  pub pk : ℕ
  pub category : ℕ
  pub group : ℕ
  pub year : ℕ
  pub profile : ℕ
  pub points : ℤ
  pub position : Option ℕ

-- The unique columns of a row: `unique_db_fields`.
pub record Key : Type 0 where
  pub category : ℕ
  pub group : ℕ
  pub year : ℕ
  pub profile : ℕ

-- Whether a row has the unique columns.
abbrev pub has_key : Key → Stat → Bool
has_key k r =
    r.category == k.category && r.group == k.group && r.year == k.year && r.profile == k.profile

-- `partition_by`, the grouping fields of the model
abbrev pub same_partition : Stat → Stat → Bool
same_partition r s = r.category == s.category && r.group == s.group
