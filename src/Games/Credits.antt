-- ===== src/Games/Credits.antt =====
-- `get_highlights_for_game` and the table `highlights` (apps/tracker/managers/game.py) on the rows of
-- the players and their weapons. A title is its place in the table. A column that was not reported
-- is 0.
use swat4stats.Base.{ℕ, true, false, ◌==◌, Option, none, some, List, [], ◌∷◌, ◌++◌, map}
use swat4stats.Base.Int.{ℤ, pos, ◌+ℤ◌}
use swat4stats.Base.Table.{select}
use swat4stats.Base.Text.{Text, codes}
use swat4stats.Base.Eq.{codes_eq}
use swat4stats.Schema.Dict.{get}
use swat4stats.Reports.{Stat, number, flag, WeaponRow, PlayerRow}
use swat4stats.Games.Highlights.{field_highlights}
use swat4stats.Games.Weapons.{
  Use, gun_weapon_accuracy, grenade_accuracy, gun_weapon_shots, accuracy,
  get_player_weapon_highlights,
}

abbrev pub stat_value : Option Stat → Option ℤ
stat_value none = some (pos 0)
stat_value (some (number v)) = some v
stat_value (some (flag true)) = some (pos 1)
stat_value (some (flag false)) = some (pos 0)

-- `getattr(player, field)` of a column
abbrev pub column : Text → PlayerRow → Option ℤ
column field p = stat_value (get field p.columns)

abbrev pub plus : Option ℤ → Option ℤ → Option ℤ
plus none v = none
plus (some a) none = none
plus (some a) (some b) = some (a +ℤ b)

-- `Player.coop_enemy_incaps_and_kills`
unfoldable pub coop_enemy_incaps_and_kills : PlayerRow → Option ℤ
coop_enemy_incaps_and_kills p =
    plus (column (codes "coop_enemy_incaps") p) (column (codes "coop_enemy_kills") p)

-- `self.weapons.all()`
abbrev pub weapons_of : List WeaponRow → PlayerRow → List WeaponRow
weapons_of weapons p = select (λ (w : WeaponRow). w.player == p.player.pk) weapons

-- `GamePlayerHighlight`: of a field, with its points, or of a weapon, with its kills and accuracy
pub data GamePlayerHighlight : Type 0 where
  of_field : (title player : ℕ) → ℤ → GamePlayerHighlight
  of_weapon : Text → (player kills accuracy : ℕ) → GamePlayerHighlight

module _ (percent : ℕ → ℕ → ℕ) (weapons : List WeaponRow) where
  abbrev pub by_weapons : (List WeaponRow → ℕ) → PlayerRow → Option ℤ
  by_weapons f p = some (pos (f (weapons_of weapons p)))

  -- `highlights`: the title, the field and the points that are needed
  unfoldable pub highlights : List (ℕ × (PlayerRow → Option ℤ) × ℤ)
  unfolding coop_enemy_incaps_and_kills
  highlights =
      (0, column (codes "vip_rescues"), pos 2)
      ∷ (1, column (codes "vip_captures"), pos 2)
      ∷ (2, column (codes "rd_bombs_defused"), pos 2)
      ∷ (3, column (codes "kill_streak"), pos 5)
      ∷ (4, column (codes "arrest_streak"), pos 5)
      ∷ (5, column (codes "score"), pos 30)
      ∷ (6, by_weapons (grenade_accuracy percent), pos 50)
      ∷ (7, by_weapons (gun_weapon_accuracy percent), pos 25)
      ∷ (8, column (codes "kills"), pos 10)
      ∷ (9, by_weapons gun_weapon_shots, pos 300)
      ∷ (10, column (codes "coop_toc_reports"), pos 10)
      ∷ (11, column (codes "coop_hostage_arrests"), pos 5)
      ∷ (12, column (codes "coop_enemy_arrests"), pos 5)
      ∷ (13, coop_enemy_incaps_and_kills, pos 5)
      ∷ []

  abbrev pub credit_field : ℕ × PlayerRow × ℤ → GamePlayerHighlight
  credit_field (title, p, points) = of_field title p.player.pk points

  abbrev pub credit_weapon : Text × Use → GamePlayerHighlight
  credit_weapon (name, (player, w)) = of_weapon name player w.kills (accuracy percent w)

  -- `get_highlights_for_game`
  unfoldable pub get_highlights_for_game : List PlayerRow → List GamePlayerHighlight
  unfolding highlights
  get_highlights_for_game players =
      map credit_field (field_highlights highlights players)
      ++ map credit_weapon (
          get_player_weapon_highlights percent (map (λ (p : PlayerRow). p.player.pk) players)
            weapons)
