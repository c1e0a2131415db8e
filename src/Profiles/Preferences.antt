-- ===== src/Profiles/Preferences.antt =====
-- The preferences of a profile: name, country, team and loadout of its latest games
-- (`update_preferences_for_profile` and what it calls). Reads go to a replica, which is taken to
-- agree with the tables. Where groups tie, the first one of the players' rows is taken.
use swat4stats.Base.{
  ℕ, Bool, true, false, ◌&&◌, not, Option, none, some, List, [], ◌∷◌, map, ◌==◌, if◌then◌else◌, ltb,
  leb, take, elem, holds, is_some,
}
use swat4stats.Base.Sort.{sorted}
use swat4stats.Base.Table.{select, find?, exists, count_where}
use swat4stats.Base.Text.{Text, text_eq}
use swat4stats.Geo.{Isp}
use swat4stats.Models.Game.{Game}
use swat4stats.Profiles.{Profile, Alias, Player, People, Team, swat, suspects}
use mathlib.Core.Option

-- `for_profile`
unfoldable pub of_profile : ℕ → People → Player → Bool
of_profile profile db p = exists (λ (a : Alias). a.pk == p.alias && a.profile == profile) db.aliases

-- `TRACKER_PREFERRED_GAMES`
abbrev pub preferred_games : ℕ
preferred_games = 25

abbrev pub latest_first : Player → Player → Bool
latest_first p q = ltb q.pk p.pk

-- `order_by("-pk")` and the slice
unfoldable pub recent_game_ids : ℕ → People → List ℕ
recent_game_ids profile db =
    map (λ (p : Player). p.game)
      (take preferred_games (sorted latest_first (select (of_profile profile db) db.players)))

abbrev pub first_pk : Game → Option ℕ → Option ℕ
first_pk g none = some g.pk
first_pk g (some k) = if ltb g.pk k then some g.pk else some k

-- `filter(pk__in=…).order_by("pk")[:1]`
unfoldable pub least_game : List ℕ → List Game → Option ℕ
least_game ids [] = none
least_game ids (g ∷ gs) =
    let rest = least_game ids gs in if elem g.pk ids then first_pk g rest else rest

unfoldable pub fetch_first_preferred_game_id_for_profile : ℕ → People → Option ℕ
fetch_first_preferred_game_id_for_profile profile db =
    least_game (recent_game_ids profile db) db.games

-- The rows since the least game.
unfoldable pub rows_since : ℕ → ℕ → People → List Player
rows_since profile least db = select (λ p. of_profile profile db p && leb least p.game) db.players

module _ {A : Type 0} (eq : A → A → Bool) where
  -- `GROUP BY`, where NULL is a value of its own
  abbrev pub same_value : Option A → Option A → Bool
  same_value none none = true
  same_value none (some b) = false
  same_value (some a) none = false
  same_value (some a) (some b) = eq a b

  -- `Count(…)` of a group: the rows whose counted column is not NULL
  unfoldable pub num : (Player → Option A) → (Player → Bool) → List Player → Option A → ℕ
  num field counted rows v =
      count_where (λ p. same_value (field p) v && (counted p && is_some (field p))) rows

  abbrev pub better : (Option A → ℕ) → Option A → Option (Option A) → Option (Option A)
  better n v none = some v
  better n v (some w) = if ltb (n v) (n w) then some w else some v

  -- `order_by("-num")[:1]`
  unfoldable pub best : (Option A → ℕ) → List (Option A) → Option (Option A)
  best n [] = none
  best n (v ∷ vs) = better n v (best n vs)

  abbrev pub value : Option (Option A) → Option A
  value none = none
  value (some v) = v

  -- `fetch_preferred_field_for_profile`, for a game that is not 0
  unfoldable pub fetch_preferred_field_for_profile :
      ℕ → (Player → Option A) → (Player → Bool) → ℕ → People → Option A
  fetch_preferred_field_for_profile profile field counted least db =
      let rows = rows_since profile least db in
      value (best (num field counted rows) (map field rows))

-- `alias__name`, `alias__isp__country`
unfoldable pub alias_of : People → Player → Option Alias
alias_of db p = find? (λ (a : Alias). a.pk == p.alias) db.aliases

abbrev pub isp_country : Option Isp → Option Text
isp_country none = none
isp_country (some i) = i.country

unfoldable pub alias_name : People → Player → Option Text
alias_name db p = Option.map (λ (a : Alias). a.name) (alias_of db p)

abbrev pub alias_country : People → Option Alias → Option Text
alias_country db none = none
alias_country db (some a) = isp_country (find? (λ (i : Isp). holds a.isp i.pk) db.geo.isps)

abbrev pub team_eq : Team → Team → Bool
team_eq swat swat = true
team_eq swat suspects = false
team_eq suspects swat = false
team_eq suspects suspects = true

abbrev pub everyone : Player → Bool
everyone p = true

unfoldable pub fetch_preferred_name_for_profile : ℕ → ℕ → People → Option Text
fetch_preferred_name_for_profile profile least db =
    fetch_preferred_field_for_profile text_eq profile (alias_name db) everyone least db

unfoldable pub fetch_preferred_country_for_profile : ℕ → ℕ → People → Option Text
fetch_preferred_country_for_profile profile least db =
    fetch_preferred_field_for_profile text_eq profile (λ p. alias_country db (alias_of db p))
      everyone least db

unfoldable pub fetch_preferred_team_for_profile : ℕ → ℕ → People → Option Team
fetch_preferred_team_for_profile profile least db =
    fetch_preferred_field_for_profile team_eq profile (λ p. some p.team) everyone least db

-- `Case(When(vip=False, then="loadout_id"))` is counted.
unfoldable pub fetch_preferred_loadout_for_profile : ℕ → ℕ → People → Option ℕ
fetch_preferred_loadout_for_profile profile least db =
    fetch_preferred_field_for_profile (λ a b. a == b) profile (λ p. some p.loadout) (λ p. not p.vip)
      least db

-- `new or old`, for texts, teams and keys
abbrev pub or_text : Option Text → Option Text → Option Text
or_text none old = old
or_text (some []) old = old
or_text (some (c ∷ s)) old = some (c ∷ s)

abbrev pub or_team : Option Team → Option Team → Option Team
or_team none old = old
or_team (some t) old = some t

abbrev pub or_key : Option ℕ → Option ℕ → Option ℕ
or_key none old = old
or_key (some k) old = if k == 0 then old else some k

-- `teams_reversed.get(team)`
abbrev pub teams_reversed : Option Team → Option ℕ
teams_reversed none = none
teams_reversed (some swat) = some 0
teams_reversed (some suspects) = some 1

unfoldable pub with_preferences : ℕ → ℕ → People → Profile → Profile
with_preferences now least db p =
    let team = or_team (fetch_preferred_team_for_profile p.pk least db) p.team in
    record p {
      name = or_text (fetch_preferred_name_for_profile p.pk least db) p.name;
      country = or_text (fetch_preferred_country_for_profile p.pk least db) p.country;
      team = team;
      team_legacy = teams_reversed team;
      loadout = or_key (fetch_preferred_loadout_for_profile p.pk least db) p.loadout;
      preferences_updated_at = some now;
    }

-- `if not (least_game_id := …): return`
unfoldable pub update_since : ℕ → Option ℕ → People → Profile → Profile
update_since now none db p = p
update_since now (some least) db p = if least == 0 then p else with_preferences now least db p

unfoldable pub update_preferences_for_profile : ℕ → People → Profile → Profile
update_preferences_for_profile now db p =
    update_since now (fetch_first_preferred_game_id_for_profile p.pk db) db p
