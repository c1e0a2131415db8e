-- ===== src/GameStats/Tests.antt =====
-- Three games of two servers, replayed and recalculated.
use swat4stats.Base.{ℕ, ◌*◌, ◌≡◌, refl, Bool, List, [], ◌∷◌, arith, ◌==◌, some}
use swat4stats.Models.Game.{Game}
use swat4stats.GameStats.{no_games, denorm}
use swat4stats.GameStats.Agree.{IsAscending, replay, replay-denorm}

abbrev game : ℕ → ℕ → Game
game pk server_id = record { pk = pk; server_id = server_id; map_id = 1; date_finished = 1000 * pk }

abbrev games : List Game
games = game 3 1 ∷ game 5 2 ∷ game 8 1 ∷ []

abbrev is_own : Game → Bool
is_own g = g.server_id == 1

denorm_games : denorm is_own games ≡ record {
  game_count = 2;
  first_game = some 3;
  first_game_played_at = some 3000;
  latest_game = some 8;
  latest_game_played_at = some 8000;
}
unfolding denorm
denorm_games = refl

games-IsAscending : IsAscending games
games-IsAscending = omega arith

replay-denorm_example : replay is_own games no_games ≡ denorm is_own games
replay-denorm_example = replay-denorm is_own games games-IsAscending
