-- ===== src/Server/Tests.antt =====
-- Concrete runs of the server registry, and its theorems at them.
use swat4stats.Base.{
  ℕ, ◌+◌, ◌*◌, ◌≡◌, refl, true, false, ◌&&◌, ◌||◌, Option, none, some, List, [], ◌∷◌, arith, map,
  ◌==◌, elem, All,
}
use swat4stats.Base.Table.{select, count_where}
use swat4stats.Base.Keys.{UniqueKeys, keys}
use swat4stats.Models.Server.{Server, new_server}
use swat4stats.Models.Game.{Game}
use swat4stats.Models.Db.{Db}
use swat4stats.GameStats.{denorm}
use swat4stats.Server.Create.{create_server, create_servers}
use swat4stats.Server.Create.Laws.{IsRegistry, requested, create_servers_answer}
use swat4stats.Server.Merge.{
  Result, ok, err, merged_main, too_few, into_itself, merge_rows, merge_servers, move_games,
  mark_merged, move_references, denorm_game_stats,
}
use swat4stats.Server.Merge.Flat.{IsFlat, merge_servers-IsFlat}
use swat4stats.Server.Merge.Complete.{merge_servers_complete}

-- Server 3 was merged into server 2 before; server 2 is merged into server 1 now.
abbrev main : Server
main = new_server 1 100 10480

abbrev second : Server
second = new_server 2 100 10580

abbrev third : Server
third = record (new_server 3 101 10480) { enabled = false; merged_into = some 2 }

abbrev game : ℕ → ℕ → Game
game pk server_id = record { pk = pk; server_id = server_id; map_id = 1; date_finished = 1000 * pk }

abbrev db : Db
db = record {
  servers = main ∷ second ∷ third ∷ [];
  next_server = 4;
  games = game 10 1 ∷ game 11 2 ∷ game 12 2 ∷ [];
}

abbrev result_of : Result Db → Db
result_of (ok d) = d
result_of (err x) = db

abbrev merged_db : Db
merged_db = result_of (merge_servers 77 main (second ∷ []) db)

db-keys : UniqueKeys (λ (s : Server). s.pk) db.servers
db-keys = omega arith

merge_servers_runs : merge_servers 77 main (second ∷ []) db ≡ ok merged_db
unfolding merge_servers merge_rows move_games mark_merged move_references denorm_game_stats denorm
merge_servers_runs = refl

merged_counts :
    map {B = Option ℕ × ℕ} (λ (s : Server). (s.merged_into, s.game_count)) merged_db.servers
    ≡ (none, 3) ∷ (some 1, 0) ∷ (some 1, 0) ∷ []
unfolding merge_servers merge_rows move_games mark_merged move_references denorm_game_stats denorm
merged_counts = refl

merge_servers_errors :
    (merge_servers 77 third (second ∷ []) db ≡ err merged_main)
    × (merge_servers 77 main [] db ≡ err too_few)
    × (merge_servers 77 main (second ∷ main ∷ []) db ≡ err into_itself)
unfolding merge_servers
merge_servers_errors = (refl, refl, refl)

merge_servers-IsFlat_example : IsFlat merged_db.servers
merge_servers-IsFlat_example =
    merge_servers-IsFlat 77 main (second ∷ []) db merged_db db-keys (ground arith) (ground arith)
      merge_servers_runs

merge_servers_complete_example :
    All
      (λ s. elem s.pk (2 ∷ []) ≡ true → (s.merged_into ≡ some 1) × (s.enabled ≡ false))
      merged_db.servers
    × All (λ g. elem g.server_id (2 ∷ []) ≡ false) merged_db.games
    × (count_where (λ g. g.server_id == 1) merged_db.games
        ≡ count_where (λ g. g.server_id == 1 || elem g.server_id (2 ∷ [])) db.games)
    × All
        (λ s. s.pk ≡ 1 → s.game_count ≡ count_where (λ g. g.server_id == 1) merged_db.games)
        merged_db.servers
merge_servers_complete_example =
    merge_servers_complete 77 main (second ∷ []) db merged_db db-keys merge_servers_runs

-- A known address, a new one, one whose server is disabled, and an invalid port.
abbrev addresses : List (ℕ × ℕ)
addresses = (100, 10480) ∷ (102, 10480) ∷ (101, 10480) ∷ (103, 0) ∷ []

registered_keys : keys (λ (s : Server). s.pk) (create_servers addresses db).0 ≡ 1 ∷ 4 ∷ []
unfolding create_servers
registered_keys = refl

create_server_taken : create_server 100 10480 (λ s. s) db ≡ none
unfolding create_server
create_server_taken = refl

db-IsRegistry : IsRegistry db
db-IsRegistry = record { keys = omega arith; unique = ground arith }

create_servers_answer_example :
    let (rows, db') = create_servers addresses db in
    IsRegistry db' × (rows ≡ select (λ s. s.enabled && requested addresses s) db'.servers)
create_servers_answer_example = create_servers_answer addresses db db-IsRegistry

-- Two renamed servers; the vector of one is up to date.
abbrev named : List Server
named =
    record (new_server 1 100 10480) { hostname_updated_at = some 50 }
    ∷ record (new_server 2 100 10580) { hostname_updated_at = some 50; search_updated_at = some 60 }
    ∷ []

-- Each page is updated ten seconds after the one before.
abbrev clock : ℕ → ℕ
clock i = 70 + 10 * i
