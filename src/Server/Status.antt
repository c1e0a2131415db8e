-- ===== src/Server/Status.antt =====
-- The cached statuses and the search columns of the servers (apps/tracker/managers/server.py). The
-- search vector itself is computed by the database and is left out.
use swat4stats.Base.{
  ℕ, Bool, false, ◌&&◌, ◌||◌, Option, none, some, List, [], ◌∷◌, ltb, if◌then◌else◌, elem, is_some,
  is_none,
}
use swat4stats.Base.Table.{select, update_where}
use swat4stats.Models.Server.{Server}
use swat4stats.Server.Listing.{Cache, hget, hset, address}

-- `hostname_updated_at__gt=F("search_updated_at")`: NULL is greater than nothing
abbrev pub is_later : Option ℕ → Option ℕ → Bool
is_later none t = false
is_later (some s) none = false
is_later (some s) (some t) = ltb t s

unfoldable pub require_search_update : List Server → List Server
require_search_update = select (λ s.
    is_some s.hostname_updated_at
    && (is_none s.search_updated_at || is_later s.hostname_updated_at s.search_updated_at))

unfoldable pub update_search_vector : ℕ → List ℕ → List Server → List Server
update_search_vector now ids =
    update_where (λ s. elem s.pk ids) (λ s. record s { search_updated_at = some now })

module _ {V : Type 0} where
  -- `with_status`: the servers with their cached status, those without one only on demand
  unfoldable pub with_status : Bool → List Server → Cache V → List (Server × Option V)
  with_status with_empty [] cache = []
  with_status with_empty (s ∷ servers) cache =
      let rest = with_status with_empty servers cache in
      elim (hget (address s) cache) [
        | none ↦ if with_empty then (s, none) ∷ rest else rest
        | some v ↦ (s, some v) ∷ rest
      ]

  -- `update_server_with_status`
  unfoldable pub update_server_with_status : Server → V → Cache V → Cache V
  update_server_with_status s v cache = hset (address s) v cache
