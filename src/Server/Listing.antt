-- ===== src/Server/Listing.antt =====
-- Listing of servers: the queries of apps/tracker/managers/server.py that count failed status
-- requests, list and unlist; the signal receivers of apps/tracker/signals.py; and the periodic
-- tasks `refresh_listed_servers` and `unlist_failed_servers` of apps/tracker/tasks/servers.py.
-- The answers of the game servers, the schema that checks them and the clock are parameters.
pub mod Refresh
pub mod RefreshLaws
pub mod Unlist
pub mod Cycle
mod Tests
use swat4stats.Base.{
  ℕ, ◌+◌, Bool, true, false, ◌&&◌, not, Option, none, some, List, [], ◌∷◌, map, leb, ltb, ◌==◌,
  if◌then◌else◌, elem, is_some,
}
use swat4stats.Base.Text.{Text, text_eq}
use swat4stats.Base.Table.{select, update_where, count_where}
use swat4stats.Base.Keys.{keys, lookup, fresh_keys}
use swat4stats.Models.Server.{Server}

-- `settings.TRACKER_STATUS_TOLERATED_FAILURES`
abbrev pub tolerated_failures : ℕ
tolerated_failures = 12

-- `increment_query_failures`; each of these queries also reports the number of updated rows.
unfoldable pub increment_query_failures : List ℕ → List Server → ℕ × List Server
increment_query_failures ids rows =
    let p = λ (s : Server). elem s.pk ids && s.listed in
    (count_where p rows, update_where p (λ s. record s { failures = s.failures + 1 }) rows)

unfoldable pub get_listed_servers_with_exceeded_failures : List Server → List Server
get_listed_servers_with_exceeded_failures =
    select (λ s. s.listed && leb tolerated_failures s.failures)

unfoldable pub reset_query_failures : List ℕ → (Server → Bool) → List Server → ℕ × List Server
reset_query_failures ids when rows =
    let p = λ (s : Server). elem s.pk ids && ltb 0 s.failures && when s in
    (count_where p rows, update_where p (λ s. record s { failures = 0 }) rows)

unfoldable pub relist_servers : List ℕ → List Server → ℕ × List Server
relist_servers ids rows =
    let p = λ (s : Server). elem s.pk ids && not s.listed in
    (count_where p rows, update_where p (λ s. record s { listed = true; failures = 0 }) rows)

unfoldable pub unlist_servers : List ℕ → List Server → ℕ × List Server
unlist_servers ids rows =
    let p = λ (s : Server). elem s.pk ids && s.listed in
    (count_where p rows, update_where p (λ s. record s { listed = false }) rows)

unfoldable pub enabled : List Server → List Server
enabled = select (λ s. s.enabled)

unfoldable pub listed : List Server → List Server
unfolding enabled
listed rows = select (λ s. s.listed) (enabled rows)

-- The redis hash of server statuses, by address; `hset` stores behind the old entries are shadowed.
abbrev pub Cache : Type 0 → Type 0
Cache V = List ((ℕ × ℕ) × V)

abbrev pub address : Server → ℕ × ℕ
address s = (s.ip, s.port)

abbrev pub same_address : ℕ × ℕ → ℕ × ℕ → Bool
same_address (ip, port) (ip', port') = ip == ip' && port == port'

module _ {V : Type 0} where
  abbrev pub hget : ℕ × ℕ → Cache V → Option V
  hget a [] = none
  hget a ((b, v) ∷ cache) = if same_address a b then some v else hget a cache

  abbrev pub hset : ℕ × ℕ → V → Cache V → Cache V
  hset a v [] = (a, v) ∷ []
  hset a v ((b, w) ∷ cache) = if same_address a b then (b, v) ∷ cache else (b, w) ∷ hset a v cache

  -- `redis.hmset`: the pairs in their order
  abbrev pub hmset : List (Server × V) → Cache V → Cache V
  hmset [] cache = cache
  hmset ((s, v) ∷ rest) cache = hmset rest (hset (address s) v cache)

  -- `redis.hdel` of one key
  abbrev pub hdel : ℕ × ℕ → Cache V → Cache V
  hdel a [] = []
  hdel a ((b, v) ∷ cache) = if same_address a b then hdel a cache else (b, v) ∷ hdel a cache

  -- `delete_status`
  unfoldable pub delete_status : List Server → Cache V → Cache V
  delete_status [] cache = cache
  delete_status (s ∷ servers) cache = delete_status servers (hdel (address s) cache)

-- What a status request came to: an exception, or the information that the server sent.
pub data Response (Info : Type 0) : Type 0 where
  failed : Response Info
  received : Info → Response Info

-- How `refresh_status` takes a response.
pub data Verdict (Status : Type 0) : Type 0 where
  live : Status → Verdict Status
  broken : Verdict Status
  mismatch : Verdict Status

abbrev pub live_status : {Status : Type 0} → Verdict Status → Option Status
live_status (live st) = some st
live_status broken = none
live_status mismatch = none

abbrev pub is_broken : {Status : Type 0} → Verdict Status → Bool
is_broken (live st) = false
is_broken broken = true
is_broken mismatch = false

-- The row that `update_hostnames` makes in memory: the first pair with the row's key counts.
renamed : (Text → Text) → List (Server × Text) → Server → Server
renamed clean updates s = elim (lookup (λ (r : Server). r.pk) s.pk updates) [
  | none ↦ s
  | some h ↦ record s { hostname = some h; hostname_clean = some (clean h) }
]

-- `update_hostnames`: the cleaning of a name, the moment, and the servers with their new names
unfoldable pub update_hostnames :
    (Text → Text) → ℕ → List (Server × Text) → List Server → List Server
unfolding renamed
update_hostnames clean now updates rows =
    update_where (λ s. elem s.pk (map (λ (r, h). r.pk) updates))
      (λ s. record s { hostname_updated_at = some now }) (map (renamed clean updates) rows)
