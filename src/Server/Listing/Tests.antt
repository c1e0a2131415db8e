-- ===== src/Server/Listing/Tests.antt =====
-- A run of the periodic tasks over four servers, and the theorems of the listing at it.
use swat4stats.Base.{All, ℕ, ◌≡◌, refl, true, false, some, List, [], ◌∷◌, arith, map, ◌==◌}
use swat4stats.Base.Text.{Text, codes}
use swat4stats.Base.Table.{find?}
use swat4stats.Base.Keys.{UniqueKeys}
use mathlib.Core.Option
use swat4stats.Models.Server.{Server, new_server}
use swat4stats.Server.Listing.{Response, failed, received, Cache, broken}
use swat4stats.Server.Listing.Refresh.{Env, verdict, refresh_listed_servers}
use swat4stats.Server.Listing.RefreshLaws.{pk, refreshed, refresh_listed_servers-refreshed}
use swat4stats.Server.Listing.Unlist.{
  unlist_failed_servers, unlisted, unlist_failed_servers-unlisted,
}
use swat4stats.Server.Listing.Cycle.{Run, refresh, unlist, runs, FindsDown, runs_down}

-- The information and the status are a port and a host name.
abbrev Info : Type 0
Info = ℕ × Text

abbrev answer : Server → Response Info
answer s = elim (s.pk == 1) [
  | true ↦ received (10480, codes "new")
  | false ↦ elim (s.pk == 2) [ true ↦ received (1, codes "other") | false ↦ failed ]
]

abbrev env : Env Info Info
env = record {
  request = answer;
  schema = some;
  hostport = λ i. i.0;
  hostname = λ i. i.1;
  clean = λ t. t;
  now = 500;
}

abbrev listed_server : ℕ → ℕ → Server
listed_server pk failures = record (new_server pk 100 10480) { listed = true; failures = failures }

abbrev rows : List Server
rows = listed_server 1 3 ∷ listed_server 2 3 ∷ listed_server 3 11 ∷ new_server 4 100 10480 ∷ []

abbrev cache : Cache Info
cache = []

rows-keys : UniqueKeys pk rows
rows-keys = omega arith

failures_after : map (λ (s : Server). s.failures) (map (refreshed env) rows) ≡ 0 ∷ 3 ∷ 12 ∷ 0 ∷ []
unfolding verdict
failures_after = refl

refresh_listed_servers-refreshed_example :
    (refresh_listed_servers env (rows, cache)).0 ≡ map (refreshed env) rows
refresh_listed_servers-refreshed_example = refresh_listed_servers-refreshed env rows cache rows-keys

abbrev late : List Server
late = listed_server 1 12 ∷ listed_server 2 11 ∷ []

late-keys : UniqueKeys pk late
late-keys = omega arith

unlist_failed_servers-unlisted_example : (unlist_failed_servers (late, cache)).0 ≡ map unlisted late
unlist_failed_servers-unlisted_example = unlist_failed_servers-unlisted late cache late-keys

-- Two refreshes before the unlisting, and one behind it.
abbrev some_runs : List (Run Info Info)
some_runs = refresh env ∷ refresh env ∷ unlist ∷ refresh env ∷ []

third-FindsDown : All (FindsDown 3) some_runs
unfolding verdict
third-FindsDown = (fails, (fails, (tt, (fails, tt))))
  where
    fails : (r : Server) → r.pk ≡ 3 → verdict env r (env.request r) ≡ broken
    fails r e = ground arith

runs_down_example :
    Option.map (λ (t : Server). t.listed) (find? (λ r. r.pk == 3) (runs some_runs (rows, cache)).0)
    ≡ some false
runs_down_example =
    runs_down some_runs rows cache 3 (listed_server 3 11) rows-keys refl third-FindsDown refl refl
