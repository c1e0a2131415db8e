-- ===== src/Reports/Create.antt =====
-- `GameManager.create_game` (apps/tracker/managers/game.py), in one transaction: an error leaves the
-- tables as they were. And the task `process_game_data` (apps/tracker/tasks/stream.py), whose
-- server is there.
use swat4stats.Base.{
  ℕ, ◌+◌, Bool, true, false, Option, none, some, List, [], ◌∷◌, ◌++◌, map, if◌then◌else◌,
}
use swat4stats.Base.Int.{ℤ, pos}
use swat4stats.Base.Text.{Text, text_eq}
use swat4stats.Base.Eq.{codes_eq, option_eq}
use swat4stats.Base.Table.{exists}
use swat4stats.Schema.Dict.{get}
use swat4stats.Schema.Codes.{gametypes_reversed, outcome_reversed}
use swat4stats.Schema.Maps.{mapnames_reversed}
use swat4stats.Entities.Modes.{GameType, game_type_value, versus_modes, coop_modes, is_coop}
use swat4stats.Games.Coop.{
  CoopRank, calculate_coop_score_for_procedures, calculate_coop_rank_for_score,
}
use swat4stats.Reports.{ProcedureData, GameData, GameRow, Tables, Outside}
use swat4stats.Reports.Attempts.{Error, already_saved, Attempt, made, failed, ◌>>=◌, found_at}
use swat4stats.Reports.Parts.{
  obtain_for, legacy_map, create_game_procedures, create_game_objectives,
}
use swat4stats.Reports.Players.{or_empty, create_game_players}

abbrev pub game_type_in : Text → List GameType → Option GameType
game_type_in t [] = none
game_type_in t (g ∷ gs) = if text_eq t (game_type_value g) then some g else game_type_in t gs

-- `GameType(value)`: `none` is its `ValueError`
unfoldable pub game_type_of : Text → Option GameType
unfolding game_type_value versus_modes coop_modes
game_type_of t = game_type_in t (versus_modes ++ coop_modes)

abbrev pub scores : Option (List ProcedureData) → Option (List ℤ)
scores none = none
scores (some ps) = some (map (λ (p : ProcedureData). p.score) ps)

-- The score and the rank of a coop game.
unfoldable pub coop_columns : Bool → Option (List ProcedureData) → ℤ × Option CoopRank
coop_columns false procedures = (pos 0, none)
coop_columns true procedures =
    let score = calculate_coop_score_for_procedures (scores procedures) in
    (score, calculate_coop_rank_for_score score)

-- `self.create(…)`: the row, or the violation of the unique tag
unfoldable pub insert_game : GameRow → Tables → Attempt Tables
insert_game g db =
    if exists (λ (h : GameRow). text_eq h.tag g.tag) db.games
    then failed already_saved
    else made (record db {
      games = db.games ++ g ∷ [];
      next_game = db.next_game + 1;
      people = record db.people {
        games =
            db.people.games
            ++ record {
              pk = g.pk;
              server_id = g.server;
              map_id = g.map;
              date_finished = g.date_finished;
            }
              ∷ [];
      };
    })

-- The row of the game.
unfoldable pub game_row : ℕ → GameData → ℕ → GameType → Option ℤ → ℕ → ℕ → ℕ → GameRow
unfolding coop_columns
game_row server d date_finished gametype gametype_legacy outcome_legacy map_id pk = record {
  pk = pk;
  server = server;
  tag = d.tag;
  date_finished = date_finished;
  gametype = gametype;
  gametype_legacy = gametype_legacy;
  map = map_id;
  mapname = legacy_map (get d.mapname mapnames_reversed);
  outcome = d.outcome;
  outcome_legacy = outcome_legacy;
  time = d.time;
  player_num = d.player_num;
  score_swat = d.score_swat;
  score_sus = d.score_sus;
  vict_swat = d.vict_swat;
  vict_sus = d.vict_sus;
  rd_bombs_defused = d.bombs_defused;
  rd_bombs_total = d.bombs_total;
  coop_score = (coop_columns (is_coop gametype) d.coop_procedures).0;
  coop_rank = (coop_columns (is_coop gametype) d.coop_procedures).1;
}

-- What follows the row: the procedures, the objectives and the players.
unfoldable pub create_parts : Outside → ℕ → Bool → GameData → Tables → Attempt Tables
create_parts out game coop d db = do
  with_procedures ← create_game_procedures game d.coop_procedures db
  with_objectives ← create_game_objectives game d.coop_objectives with_procedures
  create_game_players out game coop (or_empty d.players) with_objectives

-- The row is inserted, and its parts after it.
unfoldable pub save_game : Outside → Bool → GameData → GameRow → Tables → Attempt (GameRow × Tables)
unfolding insert_game create_parts
save_game out coop d g db = do
  with_game ← insert_game g db
  after ← create_parts out g.pk coop d with_game
  made (g, after)

-- `create_game`: the row of the game and the tables
unfoldable pub create_game : Outside → ℕ → GameData → ℕ → Tables → Attempt (GameRow × Tables)
unfolding game_type_of game_row save_game
create_game out server d date_finished db = do
  gametype ← found_at (game_type_of d.gametype)
  gametype_legacy ← found_at (get d.gametype gametypes_reversed)
  outcome_legacy ← found_at (get d.outcome outcome_reversed)
  let (map_id, with_map) = obtain_for out d.mapname db
  save_game out (is_coop gametype) d
      (game_row server d date_finished gametype gametype_legacy outcome_legacy map_id db.next_game)
      with_map

-- What the task comes to: the game that `game_data_saved` is sent with, nothing, or a retry.
pub data Processed : Type 0 where
  sent : GameRow → Tables → Processed
  skipped : Processed
  retried : Error → Processed

-- `except GameAlreadySavedError: pass`
abbrev pub processed : Attempt (GameRow × Tables) → Processed
processed (made (g, db)) = sent g db
processed (failed already_saved) = skipped
processed (failed Error.key_error) = retried Error.key_error
processed (failed Error.missing_value) = retried Error.missing_value
processed (failed Error.empty_name) = retried Error.empty_name
processed (failed Error.multiple_providers) = retried Error.multiple_providers

-- `process_game_data`
unfoldable pub process_game_data : Outside → ℕ → GameData → ℕ → Tables → Processed
unfolding create_game
process_game_data out server d received db = processed (create_game out server d received db)
