-- ===== src/Reports/Receive.antt =====
-- The task `process_game_data` followed by the tasks that the signal of a saved game queues
-- (apps/tracker/signals.py, apps/tracker/tasks/stream.py): the first and last game of profiles, and
-- the statistics that the rows of servers and maps carry. The tasks run after the commit, in turn.
use swat4stats.Base.{ℕ, ◌==◌, List, [], ◌∷◌, if◌then◌else◌}
use swat4stats.Models.Game.{Game}
use swat4stats.GameStats.{GameStats, add_game}
use swat4stats.Profiles.Seen.{update_with_game}
use swat4stats.Reports.{GameData, GameRow, Tables, Outside}
use swat4stats.Reports.Create.{Processed, sent, skipped, retried, process_game_data}

-- The tables, and the statistics of the rows of servers and of maps by their keys.
pub record World : Type 0 where
  pub tables : Tables
  pub servers : ℕ → GameStats
  pub maps : ℕ → GameStats

-- The columns of a game that the tasks read.
abbrev pub played : GameRow → Game
played g = record {
  pk = g.pk;
  server_id = g.server;
  map_id = g.map;
  date_finished = g.date_finished;
}

-- `filter(pk=…).update(…)`
abbrev pub update_at : ℕ → (GameStats → GameStats) → (ℕ → GameStats) → ℕ → GameStats
update_at pk f column k = if pk == k then f (column k) else column k

-- `update_profile_games`
unfoldable pub update_profile_games : Game → World → World
update_profile_games game w = record w {
  tables = record w.tables { people = update_with_game game w.tables.people };
}

-- `update_server_games`
unfoldable pub update_server_games : Game → World → World
update_server_games game w = record w {
  servers = update_at game.server_id (add_game game) w.servers;
}

-- `update_map_games`
unfoldable pub update_map_games : Game → World → World
update_map_games game w = record w { maps = update_at game.map_id (add_game game) w.maps }

-- `delay_game_related_stats_tasks`
unfoldable pub delay_game_related_stats_tasks : Game → World → World
unfolding update_profile_games update_server_games update_map_games
delay_game_related_stats_tasks game w =
    update_map_games game (update_server_games game (update_profile_games game w))

-- What the task's outcome makes of the world.
unfoldable pub settle : Processed → World → World
unfolding delay_game_related_stats_tasks
settle (sent g after) w = delay_game_related_stats_tasks (played g) (record w { tables = after })
settle skipped w = w
settle (retried e) w = w

-- A report of a server, the time it came, and what the outside answers then.
pub record Arrival : Type 0 where
  pub out : Outside
  pub server : ℕ
  pub report : GameData
  pub received : ℕ

unfoldable pub receive : Arrival → World → World
unfolding settle
receive a w = settle (process_game_data a.out a.server a.report a.received w.tables) w

-- Reports in the order in which they come; one that is retried comes again.
abbrev pub receive_all : List Arrival → World → World
receive_all [] w = w
receive_all (a ∷ arrivals) w = receive_all arrivals (receive a w)
