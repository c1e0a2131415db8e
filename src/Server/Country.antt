-- ===== src/Server/Country.antt =====
-- The task `update_server_country` (apps/tracker/tasks/servers.py), which asks the address ranges for
-- the provider of the server.
use swat4stats.Base.{ℕ, Option, none, some, List, [], ◌∷◌, ◌==◌}
use swat4stats.Base.Text.{Text}
use swat4stats.Base.Table.{update_where, find?}
use swat4stats.Models.Server.{Server}
use swat4stats.Geo.{Isp, Geo}
use swat4stats.Geo.Whois.{Ipwhois}
use swat4stats.Geo.Match.{Answer, answered, multiple_objects, match_or_create}

-- `isp.country` of the provider with a key, where it is not empty
abbrev pub country_of_isp : Option ℕ → Geo → Option Text
country_of_isp none geo = none
country_of_isp (some k) geo = elim (find? (λ (i : Isp). i.pk == k) geo.isps) [
  | none ↦ none
  | some i ↦ elim i.country [ none ↦ none | some c ↦ elim c [ [] ↦ none | x ∷ t ↦ some (x ∷ t) ] ]
]

-- `if not (isp and isp.country): return`
unfoldable pub set_country : ℕ → Option Text → List Server → List Server
set_country server_id none rows = rows
set_country server_id (some c) rows =
    update_where (λ s. s.pk == server_id) (λ s. record s { country = some c }) rows

-- After the lookup; an exception of it ends the task.
unfoldable pub with_provider : ℕ → Answer × Geo → List Server → List Server × Geo
unfolding set_country
with_provider server_id (answered isp created, geo) rows =
    (set_country server_id (country_of_isp isp geo) rows, geo)
with_provider server_id (multiple_objects, geo) rows = (rows, geo)

-- `update_server_country`: `none` where the server does not exist
unfoldable pub update_server_country : Ipwhois → ℕ → List Server × Geo → Option (List Server × Geo)
unfolding with_provider
update_server_country whois server_id (rows, geo) =
    elim (find? (λ (s : Server). s.pk == server_id) rows) [
      | none ↦ none
      | some s ↦ some (with_provider server_id (match_or_create whois s.ip geo) rows)
    ]
