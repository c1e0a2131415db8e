-- ===== src/Server/Listing/Refresh.antt =====
-- `refresh_status` (apps/tracker/managers/server.py), the receivers of `live_servers_detected`
-- and `failed_servers_detected` (apps/tracker/signals.py), and the task `refresh_listed_servers`
-- (apps/tracker/tasks/servers.py). The exceptions themselves, which are only logged, are left out.
use swat4stats.Base.{ℕ, Bool, false, Option, none, some, List, [], ◌∷◌, map, ◌==◌, if◌then◌else◌}
use swat4stats.Base.Text.{Text, text_eq}
use swat4stats.Base.Keys.{keys, fresh_keys}
use swat4stats.Models.Server.{Server}
use swat4stats.Server.Listing.{
  increment_query_failures, reset_query_failures, listed, Cache, hmset, Response, failed, received,
  Verdict, live, broken, mismatch, update_hostnames,
}

-- `server.hostname == hostname`, where the column may be NULL
abbrev pub same_hostname : Option Text → Text → Bool
same_hostname none h = false
same_hostname (some g) h = text_eq g h

-- What the code takes from elsewhere: `request` is the status request to a server, `schema` is
-- `serverquery_schema`, `none` where it raises, with two fields of the validated status; `clean`
-- is `force_clean_name`.
pub record Env (Info Status : Type 0) : Type 0 where
  pub request : Server → Response Info
  pub schema : Info → Option Status
  pub hostport : Status → ℕ
  pub hostname : Status → Text
  pub clean : Text → Text
  pub now : ℕ

module _ {Info Status : Type 0} (env : Env Info Status) where
  -- `fetch_status`: one request for each server, in order
  unfoldable pub fetch_status : List Server → List (Server × Response Info)
  fetch_status servers = map (λ s. (s, env.request s)) (fresh_keys (λ s. s.pk) [] servers)

  -- The body of the loop in `refresh_status`.
  unfoldable pub verdict : Server → Response Info → Verdict Status
  verdict s failed = broken
  verdict s (received info) = elim (env.schema info) [
    | none ↦ broken
    | some st ↦ if env.hostport st == s.port then live st else mismatch
  ]

  unfoldable pub classify : List (Server × Response Info) → List (Server × Status) × List Server
  classify [] = ([], [])
  classify ((s, r) ∷ rest) =
      let (with_status, with_errors) = classify rest in
      elim (verdict s r) [
        | live st ↦ ((s, st) ∷ with_status, with_errors)
        | broken ↦ (with_status, s ∷ with_errors)
        | mismatch ↦ (with_status, with_errors)
      ]

  unfoldable pub refresh_status :
      List Server → Cache Status → (List (Server × Status) × List Server) × Cache Status
  unfolding fetch_status classify
  refresh_status servers cache =
      let (with_status, with_errors) = classify (fetch_status servers) in
      ((with_status, with_errors), hmset with_status cache)

  unfoldable pub changed_hostnames : List (Server × Status) → List (Server × Text)
  changed_hostnames [] = []
  changed_hostnames ((s, st) ∷ rest) =
      if same_hostname s.hostname (env.hostname st)
      then changed_hostnames rest
      else (s, env.hostname st) ∷ changed_hostnames rest

  -- `if not new_hostnames_for_servers: return`
  unfoldable pub rename_changed : List (Server × Text) → List Server → List Server
  rename_changed [] rows = rows
  rename_changed (u ∷ us) rows = update_hostnames env.clean env.now (u ∷ us) rows

  -- `update_live_servers_hostnames`
  unfoldable pub update_live_servers_hostnames : List (Server × Status) → List Server → List Server
  update_live_servers_hostnames servers rows = rename_changed (changed_hostnames servers) rows

  -- `reset_server_failure_count`
  unfoldable pub reset_server_failure_count : List (Server × Status) → List Server → List Server
  unfolding reset_query_failures
  reset_server_failure_count servers rows =
      (reset_query_failures (map (λ (s, st). s.pk) servers) (λ s. s.listed) rows).1

  -- `inc_failures_for_failed_servers`
  unfoldable pub inc_failures_for_failed_servers : List Server → List Server → List Server
  unfolding increment_query_failures
  inc_failures_for_failed_servers servers rows =
      (increment_query_failures (keys (λ s. s.pk) servers) rows).1

  -- `live_servers_detected.send`: the receivers in the order in which they are connected
  unfoldable pub live_servers_detected : List (Server × Status) → List Server → List Server
  live_servers_detected servers rows =
      reset_server_failure_count servers (update_live_servers_hostnames servers rows)

  -- `if servers_live: …send`
  unfoldable pub detect_live : List (Server × Status) → List Server → List Server
  detect_live [] rows = rows
  detect_live (l ∷ ls) rows = live_servers_detected (l ∷ ls) rows

  -- `if servers_failed: …send`
  unfoldable pub detect_failed : List Server → List Server → List Server
  detect_failed [] rows = rows
  detect_failed (e ∷ es) rows = inc_failures_for_failed_servers (e ∷ es) rows

  unfoldable pub refresh_listed_servers : List Server × Cache Status → List Server × Cache Status
  unfolding refresh_status
  refresh_listed_servers (rows, cache) =
      let ((status, errors), cache') = refresh_status (listed rows) cache in
      (detect_failed errors (detect_live status rows), cache')
