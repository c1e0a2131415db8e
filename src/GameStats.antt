-- ===== src/GameStats.antt =====
-- The denormalised game statistics that rows of servers and of maps carry: the incremental update
-- with a new game and the recalculation from all games, which apps/tracker/managers/server.py and
-- apps/tracker/managers/map.py spell alike (`update_game_stats_with_game`, `denorm_game_stats`).
pub mod Agree
mod Tests
use swat4stats.Base.{
  ℕ, ◌+◌, Bool, not, Option, none, some, List, [], ◌∷◌, ◌==◌, if◌then◌else◌, is_none, holds, length,
}
use swat4stats.Base.Table.{select, find?}
use swat4stats.Models.Game.{Game}
use Prim.Native.Nat.{min, max}
use mathlib.Core.Option

-- The five columns.
pub record GameStats : Type 0 where
  pub game_count : ℕ
  pub first_game : Option ℕ
  pub first_game_played_at : Option ℕ
  pub latest_game : Option ℕ
  pub latest_game_played_at : Option ℕ

-- What `denorm_game_stats` writes for a row without games; also the defaults of a new row.
abbrev pub no_games : GameStats
no_games = record {
  game_count = 0;
  first_game = none;
  first_game_played_at = none;
  latest_game = none;
  latest_game_played_at = none;
}

-- `first_game_update_qs`
unfoldable pub set_first : Game → GameStats → GameStats
set_first game st =
    if is_none st.first_game
    then record st { first_game = some game.pk; first_game_played_at = some game.date_finished }
    else st

-- `last_game_update_qs`; a row without a latest game passes the filter.
unfoldable pub set_latest : Game → GameStats → GameStats
set_latest game st =
    if not (holds st.latest_game game.pk)
    then record st {
      game_count = st.game_count + 1;
      latest_game = some game.pk;
      latest_game_played_at = some game.date_finished;
    }
    else st

-- `update_game_stats_with_game`, on a row that the game belongs to
unfoldable pub add_game : Game → GameStats → GameStats
unfolding set_first set_latest
add_game game st = set_latest game (set_first game st)

-- `Min("pk")` and `Max("pk")` over a group of games
abbrev pub min_pk : Game → List Game → ℕ
min_pk g [] = g.pk
min_pk g (h ∷ gs) = min g.pk (min_pk h gs)

abbrev pub max_pk : Game → List Game → ℕ
max_pk g [] = g.pk
max_pk g (h ∷ gs) = max g.pk (max_pk h gs)

-- `date_played_per_game_id.get(pk)`
abbrev pub date_played : List Game → ℕ → Option ℕ
date_played games k = Option.map (λ (g : Game). g.date_finished) (find? (λ g. g.pk == k) games)

-- What `denorm_game_stats` writes for a row, from all games and from those of the row.
unfoldable pub aggregate : List Game → List Game → GameStats
aggregate games [] = no_games
aggregate games (g ∷ gs) = record {
  game_count = length (g ∷ gs);
  first_game = some (min_pk g gs);
  first_game_played_at = date_played games (min_pk g gs);
  latest_game = some (max_pk g gs);
  latest_game_played_at = date_played games (max_pk g gs);
}

-- `denorm_game_stats`, for the row that the test ties the games to
unfoldable pub denorm : (Game → Bool) → List Game → GameStats
unfolding aggregate
denorm is_own games = aggregate games (select is_own games)
