-- ===== src/Games/Weapons.antt =====
-- `_get_player_weapon_highlights` (apps/tracker/managers/game.py) with `Player.gun_weapons` and
-- `Weapon.accuracy` (apps/tracker/models.py). `percent h s` is `int(h / s * 100)` in floating point,
-- which is a parameter; the titles and descriptions are left out.
use swat4stats.Base.{
  ℕ, ◌+◌, Bool, not, ◌||◌, ◌&&◌, ◌++◌, ◌==◌, Option, none, some, List, [], ◌∷◌, map, if◌then◌else◌,
  ltb,
}
use swat4stats.Base.Int.{pos}
use swat4stats.Base.Table.{select, exists}
use swat4stats.Base.Text.{Text, text_eq}
use swat4stats.Entities.Equipment.{
  Equipment, equipment_value, primary_weapons, secondary_weapons, grenades,
}
use swat4stats.Reports.{WeaponRow}
use swat4stats.Games.Highlights.{get_player_with_max_points}

-- `TRACKER_MIN_GAME_AMMO`
abbrev pub min_game_ammo : ℕ
min_game_ammo = 60

-- `TRACKER_MIN_GAME_GRENADES`
abbrev pub min_game_grenades : ℕ
min_game_grenades = 10

-- `highlights_weapon_min_kills`
abbrev pub highlights_weapon_min_kills : ℕ
highlights_weapon_min_kills = 5

-- `highlights_weapon_min_accuracy`
abbrev pub highlights_weapon_min_accuracy : ℕ
highlights_weapon_min_accuracy = 20

-- `name in` the values of the equipment
unfoldable pub is_any_of : List Equipment → Text → Bool
is_any_of es name = exists (λ e. text_eq (equipment_value e) name) es

-- `Player.gun_weapons`
unfoldable pub gun_weapons : ℕ → List WeaponRow → List WeaponRow
unfolding is_any_of
gun_weapons player = select (λ (w : WeaponRow).
    w.player == player && is_any_of (primary_weapons ++ secondary_weapons) w.name)

-- A use: a player and a weapon of theirs.
abbrev pub Use : Type 0
Use = ℕ × WeaponRow

abbrev pub named : Text → Use → Bool
named name u = text_eq name u.1.name

-- `all_player_weapons.setdefault(wpn.name, []).append((player, wpn))`
unfoldable pub add_use : Use → List (Text × List Use) → List (Text × List Use)
add_use u [] = (u.1.name, u ∷ []) ∷ []
add_use u ((name, users) ∷ rest) =
    let added = add_use u rest in
    if named name u then (name, users ++ u ∷ []) ∷ rest else (name, users) ∷ added

unfoldable pub add_uses : List Use → List (Text × List Use) → List (Text × List Use)
add_uses [] all_player_weapons = all_player_weapons
add_uses (u ∷ us) all_player_weapons = add_uses us (add_use u all_player_weapons)

-- The hits and the shots of a player's weapons with these names.
unfoldable pub hits_and_shots : List Equipment → List WeaponRow → ℕ × ℕ
unfolding is_any_of
hits_and_shots es [] = (0, 0)
hits_and_shots es (w ∷ ws) =
    let (hits, shots) = hits_and_shots es ws in
    if is_any_of es w.name then (hits + w.hits, shots + w.shots) else (hits, shots)

-- `Player.gun_weapon_shots`
unfoldable pub gun_weapon_shots : List WeaponRow → ℕ
unfolding hits_and_shots
gun_weapon_shots ws = (hits_and_shots (primary_weapons ++ secondary_weapons) ws).1

module _ (percent : ℕ → ℕ → ℕ) where
  -- `ratio` with a minimum of shots, in per cent
  unfoldable pub ratio_percent : ℕ → ℕ → ℕ → ℕ
  ratio_percent hits shots min_shots =
      if ltb shots min_shots then 0 else if shots == 0 then 0 else percent hits shots

  -- `Weapon.accuracy`
  unfoldable pub accuracy : WeaponRow → ℕ
  unfolding ratio_percent
  accuracy w =
      ratio_percent w.hits w.shots
        (if is_any_of grenades w.name then min_game_grenades else min_game_ammo)

  -- `Player._calculate_accuracy`
  unfoldable pub calculate_accuracy : List Equipment → ℕ → List WeaponRow → ℕ
  unfolding hits_and_shots ratio_percent
  calculate_accuracy es min_shots ws =
      let (hits, shots) = hits_and_shots es ws in ratio_percent hits shots min_shots

  -- `Player.gun_weapon_accuracy`
  unfoldable pub gun_weapon_accuracy : List WeaponRow → ℕ
  unfolding calculate_accuracy
  gun_weapon_accuracy = calculate_accuracy (primary_weapons ++ secondary_weapons) min_game_ammo

  -- `Player.grenade_accuracy`
  unfoldable pub grenade_accuracy : List WeaponRow → ℕ
  unfolding calculate_accuracy
  grenade_accuracy ws =
      let percentage = calculate_accuracy grenades min_game_grenades ws in
      if ltb 100 percentage then 100 else percentage

  unfoldable pub qualifies : WeaponRow → Bool
  unfolding accuracy
  qualifies w =
      not
        (ltb w.kills highlights_weapon_min_kills || ltb (accuracy w) highlights_weapon_min_accuracy)

  -- The uses that the two loops go through and keep.
  unfoldable pub uses : List ℕ → List WeaponRow → List Use
  unfolding qualifies gun_weapons
  uses [] weapons = []
  uses (p ∷ ps) weapons =
      map (λ w. (p, w)) (select qualifies (gun_weapons p weapons)) ++ uses ps weapons

  -- A weapon's name, with the player and the row of its best use.
  abbrev pub expert : Text → Option Use → List (Text × Use) → List (Text × Use)
  expert name none rest = rest
  expert name (some u) rest = (name, u) ∷ rest

  -- The second loop: the name of the weapon, and the top user with the weapon.
  unfoldable pub experts : List (Text × List Use) → List (Text × Use)
  unfolding accuracy
  experts [] = []
  experts ((name, users) ∷ rest) =
      expert name (get_player_with_max_points (λ (u : Use). pos (accuracy u.1)) users)
        (experts rest)

  unfoldable pub get_player_weapon_highlights : List ℕ → List WeaponRow → List (Text × Use)
  unfolding uses add_uses experts
  get_player_weapon_highlights players weapons = experts (add_uses (uses players weapons) [])
