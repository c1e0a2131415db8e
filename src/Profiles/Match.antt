-- ===== src/Profiles/Match.antt =====
-- `match`, `match_smart` and `match_smart_or_create`. A profile is given by its key. `upper` is the
-- database's UPPER, by which `iexact` compares.
use swat4stats.Base.{
  ℕ, ◌+◌, ◌-◌, Bool, true, false, ◌&&◌, ◌||◌, not, Option, none, some, List, [], ◌∷◌, ◌++◌, ◌==◌,
  if◌then◌else◌, leb, is_some, holds,
}
use swat4stats.Base.Text.{Text, text_eq}
use swat4stats.Base.Table.{find?, exists}
use swat4stats.Geo.{Isp, Geo}
use swat4stats.Models.Game.{Game}
use swat4stats.Profiles.{Alias, Player, People}
use swat4stats.Profiles.Popular.{is_name_popular}
use mathlib.Core.Option

-- The keyword arguments of `match`.
pub record Lookup : Type 0 where
  pub recent : Bool
  pub name : Option Text
  pub ip : Option ℕ
  pub isp : Option ℕ
  pub country : Option Text

-- `TRACKER_RECENT_TIME`
abbrev pub recent_time : ℕ
recent_time = 15552000

-- `player__game__date_finished__gte`
unfoldable pub played_since : ℕ → List Game → Player → Bool
played_since min_date games p =
    exists (λ (g : Game). g.pk == p.game && leb min_date g.date_finished) games

abbrev pub fits_ip : Option ℕ → Player → Bool
fits_ip none p = true
fits_ip (some ip) p = p.ip == ip

-- The joins of `player__…`: one player of the alias passes both tests, where there is one.
unfoldable pub fits_player : ℕ → Lookup → People → Alias → Bool
fits_player now l db a =
    if l.recent || is_some l.ip
    then exists
        (λ (p : Player).
          p.alias == a.pk
          && fits_ip l.ip p
          && (not l.recent || played_since (now - recent_time) db.games p))
        db.players
    else true

-- `isp`
abbrev pub fits_isp : Option ℕ → Alias → Bool
fits_isp none a = true
fits_isp (some i) a = holds a.isp i

abbrev pub has_country : Text → Option Text → Bool
has_country country none = false
has_country country (some c) = text_eq c country

-- `isp__country`, over the row of the alias's provider
unfoldable pub fits_country : Option Text → Geo → Alias → Bool
fits_country none geo a = true
fits_country (some country) geo a =
    exists (λ (i : Isp). holds a.isp i.pk && has_country country i.country) geo.isps

abbrev pub by_name_ip : Text → ℕ → Lookup
by_name_ip name ip = record {
  recent = false;
  name = some name;
  ip = some ip;
  isp = none;
  country = none;
}

abbrev pub by_name_isp : Text → ℕ → Lookup
by_name_isp name isp = record {
  recent = false;
  name = some name;
  ip = none;
  isp = some isp;
  country = none;
}

abbrev pub by_name_country : Text → Text → Lookup
by_name_country name country = record {
  recent = true;
  name = some name;
  ip = none;
  isp = none;
  country = some country;
}

abbrev pub by_recent_ip : ℕ → Lookup
by_recent_ip ip = record { recent = true; name = none; ip = some ip; isp = none; country = none }

-- `isp and isp.country`, where an empty text counts as missing
unfoldable pub country_step : Text → Option Text → List Lookup
country_step name none = []
country_step name (some []) = []
country_step name (some (c ∷ s)) = by_name_country name (c ∷ s) ∷ []

unfoldable pub isp_steps : Text → Option Isp → List Lookup
isp_steps name none = []
isp_steps name (some isp) = by_name_isp name isp.pk ∷ country_step name isp.country

unfoldable pub prepare_match_smart_steps : Text → ℕ → Option Isp → List Lookup
prepare_match_smart_steps name ip isp =
    if is_name_popular name
    then by_recent_ip ip ∷ []
    else by_name_ip name ip ∷ isp_steps name isp ++ by_recent_ip ip ∷ []

-- `self.create(name=name)`
unfoldable pub create_profile : Text → People → People
create_profile name db = record db {
  profiles =
      db.profiles
      ++ record {
        pk = db.next_profile;
        name = some name;
        team = none;
        team_legacy = none;
        country = none;
        loadout = none;
        game_first = none;
        game_last = none;
        first_seen_at = none;
        last_seen_at = none;
        preferences_updated_at = none;
        alias_updated_at = none;
      }
        ∷ [];
  next_profile = db.next_profile + 1;
}

unfoldable pub or_create : Text → Option ℕ → People → (ℕ × Bool) × People
or_create name (some p) db = ((p, false), db)
or_create name none db = ((db.next_profile, true), create_profile name db)

module _ (upper : Text → Text) where
  -- `name__iexact`
  unfoldable pub fits_name : Option Text → Alias → Bool
  fits_name none a = true
  fits_name (some name) a = text_eq (upper a.name) (upper name)

  unfoldable pub fits : ℕ → Lookup → People → Alias → Bool
  fits now l db a =
      fits_name l.name a
      && fits_isp l.isp a
      && fits_country l.country db.geo a
      && fits_player now l db a

  -- `match`: the profile of the first alias, or `NoProfileMatchError`
  unfoldable pub match : ℕ → Lookup → People → Option ℕ
  match now l db = Option.map (λ (a : Alias). a.profile) (find? (fits now l db) db.aliases)

  -- The loop over the steps.
  unfoldable pub match_steps : ℕ → List Lookup → People → Option ℕ
  match_steps now [] db = none
  match_steps now (l ∷ ls) db = elim (match now l db) [
    | some p ↦ some p
    | none ↦ match_steps now ls db
  ]

  unfoldable pub match_smart : ℕ → Text → ℕ → Option Isp → People → Option ℕ
  match_smart now name ip isp db = match_steps now (prepare_match_smart_steps name ip isp) db

  unfoldable pub match_smart_or_create : ℕ → Text → ℕ → Option Isp → People → (ℕ × Bool) × People
  match_smart_or_create now name ip isp db = or_create name (match_smart now name ip isp db) db
