-- ===== src/Server/Listing/Unlist.antt =====
-- The task `unlist_failed_servers` (apps/tracker/tasks/servers.py).
use swat4stats.Base.{
  ℕ, ◌≡◌, refl, sym, ◌∙◌, Bool, false, ◌&&◌, List, [], ◌∷◌, map, arith, leb, if◌then◌else◌, elem,
  All-map,
}
use swat4stats.Base.Table.{select, map_congr}
use swat4stats.Base.Keys.{UniqueKeys, keys, elem-keys}
use mathlib.Core.List.{map-id}
use swat4stats.Models.Server.{Server}
use swat4stats.Server.Listing.{
  tolerated_failures, get_listed_servers_with_exceeded_failures, unlist_servers, Cache,
  delete_status,
}

module _ {Status : Type 0} where
  -- the rest of the task, `if not offline_servers: return` aside
  unfoldable pub unlist_offline :
      List Server → List Server × Cache Status → List Server × Cache Status
  unlist_offline [] st = st
  unlist_offline (s ∷ ss) (rows, cache) =
      ((unlist_servers (keys (λ s. s.pk) (s ∷ ss)) rows).1, delete_status (s ∷ ss) cache)

  unfoldable pub unlist_failed_servers : List Server × Cache Status → List Server × Cache Status
  unfolding unlist_offline
  unlist_failed_servers (rows, cache) =
      unlist_offline (get_listed_servers_with_exceeded_failures rows) (rows, cache)

abbrev exceeded : Server → Bool
exceeded s = s.listed && leb tolerated_failures s.failures

-- The row after a run of the task.
abbrev pub unlisted : Server → Server
unlisted s =
    if s.listed && leb tolerated_failures s.failures then record s { listed = false } else s

abbrev unlist_stage : List ℕ → Server → Server
unlist_stage ids s = if elem s.pk ids && s.listed then record s { listed = false } else s

module _ {Status : Type 0} where
  unlist_offline-map :
      (off rows : List Server) (cache : Cache Status)
      → (unlist_offline off (rows, cache)).0 ≡ map (unlist_stage (keys (λ s. s.pk) off)) rows
  unfolding unlist_offline unlist_servers
  unlist_offline-map [] rows cache = sym (map-id rows)
  unlist_offline-map (s ∷ ss) rows cache = refl

  -- On a table with distinct keys the task unlists exactly the listed servers whose failures have
  -- reached the tolerated number, and changes nothing else of any row.
  pub unlist_failed_servers-unlisted :
      (rows : List Server) (cache : Cache Status)
      → UniqueKeys (λ s. s.pk) rows
      → (unlist_failed_servers (rows, cache)).0 ≡ map unlisted rows
  unfolding unlist_failed_servers get_listed_servers_with_exceeded_failures
  unlist_failed_servers-unlisted rows cache u =
      unlist_offline-map (select exceeded rows) rows cache
      ∙ map_congr _ _ rows
          (All-map (λ s e. ground (arith, e)) rows (elem-keys (λ s. s.pk) exceeded rows u))
