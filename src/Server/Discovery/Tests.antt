-- ===== src/Server/Discovery/Tests.antt =====
-- Runs of the discovery of servers and of status ports.
use swat4stats.Base.{
  ℕ, ◌≡◌, refl, true, ◌&&◌, Option, none, some, List, [], ◌∷◌, arith, map, ◌==◌, if◌then◌else◌,
  elem, All,
}
use swat4stats.Base.Table.{select}
use swat4stats.Base.Sort.{sorted}
use swat4stats.Base.Keys.{UniqueKeys, keys}
use swat4stats.Models.Server.{Server, new_server}
use swat4stats.Models.Db.{Db}
use swat4stats.Server.Create.Laws.{IsRegistry}
use swat4stats.Server.Listing.{Response, failed, received, listed}
use swat4stats.Server.Discovery.{
  World, discover, union, good_status, preferred_to, discover_published_servers,
  discover_good_query_ports,
}
use swat4stats.Server.Discovery.Published.{is_discovered, discover_published_servers-listed}
use swat4stats.Server.Discovery.Best.{IsSettled, discover_good_query_ports-best}
use swat4stats.Server.Ratings.{update_ratings}
use swat4stats.Server.Ratings.Laws.{rated, update_ratings-rated}

-- Server 100:10480 answers at all ports, with more detail at the third and the fourth.
abbrev answer : ℕ → ℕ → Response ℕ
answer ip q = if elem q (10481 ∷ 10482 ∷ 10483 ∷ 10484 ∷ []) then received q else failed

abbrev world : World ℕ ℕ ℕ ℕ
world = record {
  import_parser = λ source. if source == 7 then none else some (λ body. some ((body, 10480) ∷ []));
  get = λ source. if source == 8 then none else some (200, source);
  request = answer;
  schema = some;
  hostport = λ st. 10480;
  has_swatwon = λ st. elem st (10483 ∷ 10484 ∷ []);
  has_numrounds = λ st. st == 10484;
  shuffle = λ tasks. tasks;
}

abbrev db : Db
db = record {
  servers = record (new_server 1 100 10480) { listed = true } ∷ new_server 2 101 10480 ∷ [];
  next_server = 3;
  games =
      record { pk = 1; server_id = 2; map_id = 1; date_finished = 500 }
      ∷ record { pk = 2; server_id = 1; map_id = 1; date_finished = 600 }
      ∷ record { pk = 3; server_id = 1; map_id = 1; date_finished = 700 }
      ∷ [];
}

db-IsRegistry : IsRegistry db
db-IsRegistry = record { keys = omega arith; unique = ground arith }

-- One source has no parser and one cannot be reached; the others publish a known and a new server.
abbrev sources : List ℕ
sources = 7 ∷ 101 ∷ 8 ∷ 102 ∷ 101 ∷ []

discovered_keys :
    keys (λ (s : Server). s.pk) (discover_published_servers world sources db).0 ≡ 2 ∷ 3 ∷ []
unfolding discover_published_servers discover union good_status
discovered_keys = refl

discover_published_servers-listed_example :
    let (rows, db') = discover_published_servers world sources db in
    IsRegistry db'
    × (map (λ s. s.pk) rows
        ≡ map (λ s. s.pk) (select (λ s. s.enabled && is_discovered world sources s) db'.servers))
    × All (λ s. (s.enabled && is_discovered world sources s) ≡ true → s.listed ≡ true) db'.servers
discover_published_servers-listed_example =
    discover_published_servers-listed world sources db db-IsRegistry

preferred_ports :
    map (λ (s : Server). s.status_port) (discover_good_query_ports world db.servers)
    ≡ 10484 ∷ 0 ∷ []
unfolding discover_good_query_ports listed good_status sorted preferred_to
preferred_ports = refl

discover_good_query_ports-best_example :
    (port : Server → ℕ) × (discover_good_query_ports world db.servers
      ≡ map (λ (s : Server). record s { status_port = port s }) db.servers)
    × All (λ s. IsSettled world s (port s)) db.servers
discover_good_query_ports-best_example =
    discover_good_query_ports-best world db.servers db-IsRegistry.unique (λ p tasks. refl)

ratings_after :
    map {B = Option ℕ} (λ (s : Server). s.rating) (update_ratings 1000 db).servers
    ≡ some 1 ∷ some 2 ∷ []
unfolding update_ratings
ratings_after = refl

db-keys : UniqueKeys (λ (s : Server). s.pk) db.servers
db-keys = omega arith

update_ratings-rated_example :
    update_ratings 1000 db ≡ record db { servers = map (rated 1000 db) db.servers }
update_ratings-rated_example = update_ratings-rated 1000 db db-keys
