-- ===== src/Server/Listing/RefreshLaws.antt =====
-- What one run of `refresh_listed_servers` does to each row.
use swat4stats.Base.{
  ℕ, ◌+◌, ◌≡◌, refl, sym, ap, ◌∙◌, Bool, ◌&&◌, Option, none, some, List, [], ◌∷◌, map, arith, ltb,
  if◌then◌else◌, elem, All-map₃,
}
use swat4stats.Base.Text.{Text}
use swat4stats.Base.Table.{select, map_congr}
use swat4stats.Base.Keys.{
  UniqueKeys, keys, elem-keys, lookup, collect, collect-select, lookup-collect, elem-collect,
  fresh_keys-eq_self, UniqueKeys-select,
}
use mathlib.Core.List.{map-map, map-id}
use swat4stats.Models.Server.{Server}
use swat4stats.Server.Listing.{
  increment_query_failures, reset_query_failures, listed, Cache, live_status, is_broken, renamed,
  update_hostnames,
}
use swat4stats.Server.Listing.Refresh.{
  same_hostname, Env, fetch_status, verdict, classify, refresh_status, changed_hostnames,
  rename_changed, update_live_servers_hostnames, reset_server_failure_count,
  inc_failures_for_failed_servers, live_servers_detected, detect_live, detect_failed,
  refresh_listed_servers,
}

abbrev pub pk : Server → ℕ
pk s = s.pk

-- The periodic refresh asks these servers.
abbrev pub is_listed : Server → Bool
is_listed s = s.enabled && s.listed

select-select :
    (p q : Server → Bool) (xs : List Server) → select p (select q xs) ≡ select (λ x. q x && p x) xs
select-select p q [] = refl
select-select p q (x ∷ xs) = ground (arith, select-select p q xs)

listed-select : (rows : List Server) → listed rows ≡ select is_listed rows
unfolding listed
listed-select rows = select-select (λ s. s.listed) (λ s. s.enabled) rows

module _ {Info Status : Type 0} (env : Env Info Status) where
  -- How a run of the refresh takes a row: nothing, if the server is not asked.
  abbrev pub live_now : Server → Option Status
  live_now s = if is_listed s then live_status (verdict env s (env.request s)) else none

  abbrev pub broken_now : Server → Bool
  broken_now s = is_listed s && is_broken (verdict env s (env.request s))

  abbrev pub new_hostname : Server → Option Text
  new_hostname s = elim (live_now s) [
    | none ↦ none
    | some st ↦ if same_hostname s.hostname (env.hostname st) then none else some (env.hostname st)
  ]

  -- The row after the run: the failures of a live server are reset and its host name is updated
  -- where it has changed, and a server that did not answer with valid data has one failure more.
  abbrev pub refreshed : Server → Server
  refreshed s = elim (live_now s) [
    | some st ↦ elim (new_hostname s) [
      | none ↦ record s { failures = 0 }
      | some h ↦ record s {
        failures = 0;
        hostname = some h;
        hostname_clean = some (env.clean h);
        hostname_updated_at = some env.now;
      }
    ]
    | none ↦ if broken_now s then record s { failures = s.failures + 1 } else s
  ]

  classify_lem :
      (servers : List Server)
      → classify env (map (λ s. (s, env.request s)) servers) ≡ (
        collect pk (λ s. live_status (verdict env s (env.request s))) servers,
        select (λ s. is_broken (verdict env s (env.request s))) servers,
      )
  unfolding classify
  classify_lem [] = refl
  classify_lem (s ∷ servers) = ground (arith, classify_lem servers)

  refresh_status_parts :
      (rows : List Server) (cache : Cache Status)
      → UniqueKeys pk rows
      → (refresh_status env (listed rows) cache).0
        ≡ (collect pk live_now rows, select broken_now rows)
  unfolding refresh_status fetch_status
  refresh_status_parts rows cache u =
      rw
        (
          listed-select rows,
          fresh_keys-eq_self pk _ (UniqueKeys-select pk is_listed rows u),
          classify_lem,
        )
        (rw (collect-select pk, select-select) refl)

  changed_hostnames-collect :
      (rows : List Server)
      → changed_hostnames env (collect pk live_now rows) ≡ collect pk new_hostname rows
  unfolding changed_hostnames
  changed_hostnames-collect [] = refl
  changed_hostnames-collect (s ∷ rows) = ground (arith, changed_hostnames-collect rows)

  -- The three updates, as functions of a row.
  abbrev host_stage : List (Server × Text) → Server → Server
  host_stage us s =
      let r = renamed env.clean us s in
      if elem r.pk (map (λ (r, h). r.pk) us)
      then record r { hostname_updated_at = some env.now }
      else r

  abbrev reset_stage : List ℕ → Server → Server
  reset_stage ids s =
      if elem s.pk ids && ltb 0 s.failures && s.listed then record s { failures = 0 } else s

  abbrev inc_stage : List ℕ → Server → Server
  inc_stage ids s = if elem s.pk ids && s.listed then record s { failures = s.failures + 1 } else s

  update_hostnames-map :
      (us : List (Server × Text)) (rows : List Server)
      → update_hostnames env.clean env.now us rows ≡ map (host_stage us) rows
  unfolding update_hostnames
  update_hostnames-map us rows = map-map _ _ rows

  host_stage-nil : (rows : List Server) → map (host_stage []) rows ≡ rows
  unfolding renamed
  host_stage-nil rows = map-id rows

  rename_changed-map :
      (us : List (Server × Text)) (rows : List Server)
      → rename_changed env us rows ≡ map (host_stage us) rows
  unfolding rename_changed
  rename_changed-map [] rows = sym (host_stage-nil rows)
  rename_changed-map (u ∷ us) rows = update_hostnames-map (u ∷ us) rows

  detect_live-map :
      (ok : List (Server × Status)) (rows : List Server)
      → detect_live env ok rows
        ≡ map
            (λ s. reset_stage (map (λ (s, st). s.pk) ok) (host_stage (changed_hostnames env ok) s))
            rows
  unfolding detect_live live_servers_detected reset_server_failure_count reset_query_failures
      update_live_servers_hostnames
  detect_live-map [] rows = unfold changed_hostnames renamed in sym (map-id rows)
  detect_live-map (l ∷ ls) rows =
      ap (map (reset_stage (map (λ (s, st). s.pk) (l ∷ ls))))
        (rename_changed-map (changed_hostnames env (l ∷ ls)) rows)
      ∙ map-map _ _ rows

  detect_failed-map :
      (bad rows : List Server) → detect_failed env bad rows ≡ map (inc_stage (keys pk bad)) rows
  unfolding detect_failed inc_failures_for_failed_servers increment_query_failures
  detect_failed-map [] rows = sym (map-id rows)
  detect_failed-map (e ∷ es) rows = refl

  refreshed_point :
      (us : List (Server × Text)) (ok : List (Server × Status)) (bad : List Server) (s : Server)
      → lookup pk s.pk us ≡ new_hostname s
      → lookup pk s.pk ok ≡ live_now s
      → elem s.pk (keys pk bad) ≡ broken_now s
      → inc_stage (keys pk bad) (reset_stage (map (λ (s, st). s.pk) ok) (host_stage us s))
        ≡ refreshed s
  unfolding renamed
  refreshed_point us ok bad s h1 h2 h3 =
      ground (arith, elem-collect pk s.pk us, elem-collect pk s.pk ok)

  -- On a table with distinct keys, one run of the refresh does to each row what `refreshed` says,
  -- though it works by lists of keys: a listed and enabled server that answers with valid data for
  -- its port has its failures reset and a changed host name stored, one that fails to answer or
  -- sends invalid data has its failures incremented by one, and every other row stays as it is.
  pub refresh_listed_servers-refreshed :
      (rows : List Server) (cache : Cache Status)
      → UniqueKeys pk rows
      → (refresh_listed_servers env (rows, cache)).0 ≡ map refreshed rows
  unfolding refresh_listed_servers
  refresh_listed_servers-refreshed rows cache u =
      rw
        (
          refresh_status_parts rows cache u,
          detect_live-map,
          detect_failed-map,
          map-map,
          changed_hostnames-collect,
        )
        (map_congr _ _ rows (
          All-map₃ (refreshed_point _ _ _) rows (lookup-collect pk new_hostname rows u)
            (lookup-collect pk live_now rows u) (elem-keys pk broken_now rows u)))
