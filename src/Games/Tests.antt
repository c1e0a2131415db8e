-- ===== src/Games/Tests.antt =====
-- Ranks of scores, and the neighbours of a game among the games of two servers.
use swat4stats.Base.{
  ℕ, ◌*◌, ◌≡◌, refl, true, Option, none, some, List, [], ◌∷◌, elem, ◌==◌, if◌then◌else◌,
}
use swat4stats.Base.Int.{ℤ, pos, negsuc, ◌+ℤ◌}
use swat4stats.Base.Text.{Text, codes}
use swat4stats.Models.Game.{Game}
use swat4stats.Entities.Equipment.{equipment_value, primary_weapons, secondary_weapons, grenades}
use swat4stats.Games.Coop.{
  captain, total, calculate_coop_score_for_procedures, first_rank, calculate_coop_rank_for_score,
}
use swat4stats.Games.Highlights.{
  points, get_player_with_max_points, highlight, IsCredited, highlight-IsCredited,
}
use swat4stats.Reports.{WeaponRow}
use swat4stats.Games.Weapons.{
  is_any_of, gun_weapons, add_use, add_uses, ratio_percent, accuracy, qualifies, uses, experts,
  get_player_weapon_highlights,
}
use swat4stats.Games.Experts.{good_uses, AreExperts, get_player_weapon_highlights-AreExperts}
use swat4stats.Games.Neighbors.{prev, server_games, get_neighbors_for_game}

score_97 : calculate_coop_score_for_procedures (some (pos 40 ∷ pos 60 ∷ negsuc 2 ∷ [])) ≡ pos 97
unfolding calculate_coop_score_for_procedures total ◌+ℤ◌
score_97 = refl

rank_92 : calculate_coop_rank_for_score (pos 92) ≡ some captain
unfolding calculate_coop_rank_for_score first_rank
rank_92 = refl

abbrev game : ℕ → ℕ → Game
game pk server = record { pk = pk; server_id = server; map_id = 1; date_finished = 100 * pk }

abbrev games : List Game
games = game 1 1 ∷ game 2 2 ∷ game 3 1 ∷ game 4 1 ∷ []

in_server : elem 4 (server_games (game 4 1) games) ≡ true
unfolding server_games
in_server = refl

previous : (get_neighbors_for_game (game 4 1) games).0 ≡ some 3
unfolding get_neighbors_for_game prev server_games
previous = refl

-- players by their numbers, and the rescues of each
abbrev rescues : ℕ → Option ℤ
rescues p = if p == 1 then none else some (pos p)

rescuer : highlight 0 rescues (pos 2) (1 ∷ 3 ∷ 2 ∷ []) ≡ some (0, 3, pos 3)
unfolding highlight get_player_with_max_points
rescuer = refl

highlight-IsCredited_example :
    IsCredited
      (points rescues)
      (pos 2)
      (1 ∷ 3 ∷ 2 ∷ [])
      (highlight 0 rescues (pos 2) (1 ∷ 3 ∷ 2 ∷ []))
highlight-IsCredited_example = highlight-IsCredited 0 rescues (pos 2) (1 ∷ 3 ∷ 2 ∷ [])

-- A weapon with its player, its hits and its kills, of a hundred shots.
abbrev weapon : Text → ℕ → ℕ → ℕ → WeaponRow
weapon name player hits kills = record {
  player = player;
  name = name;
  name_legacy = 0;
  time = 0;
  shots = 100;
  hits = hits;
  teamhits = 0;
  kills = kills;
  teamkills = 0;
  distance = 0;
}

abbrev weapons : List WeaponRow
weapons =
    weapon (codes "9mm SMG") 1 30 5
    ∷ weapon (codes "9mm SMG") 2 40 7
    ∷ weapon (codes "Colt Python") 2 90 4
    ∷ weapon (codes "Stinger") 1 90 9
    ∷ []

abbrev hits_in_100 : ℕ → ℕ → ℕ
hits_in_100 hits shots = hits

-- The revolver has too few kills, and the grenade is not a gun.
weapon_expert :
    get_player_weapon_highlights hits_in_100 (1 ∷ 2 ∷ []) weapons
    ≡ (codes "9mm SMG", (2, weapon (codes "9mm SMG") 2 40 7)) ∷ []
unfolding get_player_weapon_highlights uses experts add_uses add_use qualifies accuracy
    ratio_percent gun_weapons is_any_of primary_weapons secondary_weapons grenades equipment_value
    get_player_with_max_points
weapon_expert = refl

get_player_weapon_highlights-AreExperts_example :
    AreExperts hits_in_100
      (good_uses hits_in_100 (1 ∷ 2 ∷ []) weapons)
      (get_player_weapon_highlights hits_in_100 (1 ∷ 2 ∷ []) weapons)
get_player_weapon_highlights-AreExperts_example =
    get_player_weapon_highlights-AreExperts hits_in_100 (1 ∷ 2 ∷ []) weapons
