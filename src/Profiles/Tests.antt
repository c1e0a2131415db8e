-- ===== src/Profiles/Tests.antt =====
-- Two profiles at one address, looked up by popular and by other names.
use swat4stats.Base.{
  Bool, Option, ℕ, ◌*◌, ◌≡◌, refl, true, false, none, some, [], ◌∷◌, ◌≤◌, All, map,
}
use swat4stats.Base.Table.{exists}
use swat4stats.Base.Text.{Text, codes, text_eq}
use swat4stats.Geo.{Isp}
use swat4stats.Geo.Whois.{Ipwhois}
use swat4stats.Models.Game.{Game}
use swat4stats.Profiles.{Profile, Alias, People, swat}
use swat4stats.Profiles.Popular.{is_name_popular, any_text, starts, is_word}
use swat4stats.Profiles.Match.{
  prepare_match_smart_steps, match_smart, match_steps, match, fits, fits_name, fits_country,
  fits_player, played_since, isp_steps,
}
use swat4stats.Profiles.Aliases.{match_or_create}
use swat4stats.Profiles.Smart.{FirstMatch, smart_tests, match_smart-FirstMatch}
use swat4stats.Profiles.First.{known, match_or_create_again}
use swat4stats.Profiles.Links.{IsLinked, match_or_create-IsLinked, has_profile}
use swat4stats.Profiles.Preferences.{
  fetch_preferred_field_for_profile, rows_since, of_profile, num, best, alias_name, alias_of,
  everyone,
}
use swat4stats.Profiles.Preferred.{times, fetch_preferred_field_for_profile-most}
use swat4stats.Profiles.Seen.{replay, seen, expected, replay-expected}

abbrev profile : ℕ → Profile
profile pk = record {
  pk = pk;
  name = none;
  team = none;
  team_legacy = none;
  country = none;
  loadout = none;
  game_first = none;
  game_last = none;
  first_seen_at = none;
  last_seen_at = none;
  preferences_updated_at = none;
  alias_updated_at = none;
}

abbrev alias : ℕ → Text → ℕ → Alias
alias pk name profile = record {
  pk = pk;
  name = name;
  profile = profile;
  isp = none;
  created_at = 5;
}

abbrev game : ℕ → Game
game pk = record { pk = pk; server_id = 1; map_id = 1; date_finished = 100 * pk }

abbrev people : People
people = record {
  geo = record { ips = []; isps = []; next_ip = 1; next_isp = 1 };
  profiles = profile 1 ∷ profile 2 ∷ [];
  aliases = alias 1 (codes "Serge") 1 ∷ alias 2 (codes "Grue") 2 ∷ [];
  players =
      record { pk = 1; game = 1; alias = 1; ip = 77; team = swat; loadout = 4; vip = false }
      ∷ record { pk = 2; game = 2; alias = 2; ip = 77; team = swat; loadout = 4; vip = false }
      ∷ record { pk = 3; game = 3; alias = 1; ip = 77; team = swat; loadout = 4; vip = false }
      ∷ [];
  games = game 1 ∷ game 2 ∷ game 3 ∷ [];
  next_profile = 3;
  next_alias = 3;
}

abbrev no_upper : Text → Text
no_upper s = s

abbrev no_whois : Ipwhois
no_whois = record { ipv4_is_defined = λ _. none; lookup_whois = λ _. none }

grue : match_smart no_upper 1000 (codes "Grue") 77 none people ≡ some 2
unfolding match_smart prepare_match_smart_steps is_name_popular any_text starts is_word isp_steps
    match_steps match fits fits_name fits_country fits_player played_since
grue = refl

player_is_popular : is_name_popular (codes "Player2") ≡ true
unfolding is_name_popular any_text starts
player_is_popular = refl

vip_is_popular : is_name_popular (codes "VIP") ≡ true
unfolding is_name_popular any_text starts is_word
vip_is_popular = refl

abbrev provider : Isp
provider = record { pk = 3; name = none; country = some (codes "de") }

match_smart-FirstMatch_example :
    FirstMatch people.aliases
      (smart_tests no_upper 1000 people (codes "Grue") 77 (some provider))
      (match_smart no_upper 1000 (codes "Grue") 77 (some provider) people)
match_smart-FirstMatch_example =
    match_smart-FirstMatch no_upper 1000 people (codes "Grue") 77 (some provider)

match_or_create_again_example :
    match_or_create no_upper no_whois 2000
      (codes "New")
      77
      (match_or_create no_upper no_whois 1000 (codes "New") 77 people).1
    ≡ (
      known (match_or_create no_upper no_whois 1000 (codes "New") 77 people).0,
      (match_or_create no_upper no_whois 1000 (codes "New") 77 people).1,
    )
match_or_create_again_example =
    match_or_create_again no_upper no_whois 1000 2000 (codes "New") 77 people

people-IsLinked : IsLinked people
unfolding has_profile
people-IsLinked = (refl, (refl, tt))

match_or_create-IsLinked_example :
    IsLinked (match_or_create no_upper no_whois 1000 (codes "New") 77 people).1
match_or_create-IsLinked_example =
    match_or_create-IsLinked no_upper 1000 no_whois (codes "New") 77 people people-IsLinked

replay-expected_example :
    map seen (replay (game 1 ∷ game 2 ∷ game 3 ∷ []) people).profiles
    ≡ map (expected people.aliases people.players (game 1 ∷ game 2 ∷ game 3 ∷ [])) people.profiles
replay-expected_example = replay-expected (game 1 ∷ game 2 ∷ game 3 ∷ []) people

serge_name :
    fetch_preferred_field_for_profile text_eq 1 (alias_name people) everyone 1 people
    ≡ some (codes "Serge")
unfolding fetch_preferred_field_for_profile rows_since of_profile num best alias_name alias_of
serge_name = refl

fetch_preferred_field_for_profile-most_example :
    let names = alias_name people in
    let rows = rows_since 1 1 people in
    ((t : Option Text → Bool)
      → t (some (codes "Serge")) ≡ true
      → exists (λ p. t (names p)) rows ≡ true)
    × All
        (λ p.
          (b : Text)
          → names p ≡ some b
          → times text_eq names everyone rows b ≤ times text_eq names everyone rows (codes "Serge"))
        rows
fetch_preferred_field_for_profile-most_example =
    fetch_preferred_field_for_profile-most text_eq 1 (alias_name people) everyone 1 people
      (codes "Serge") serge_name
