-- ===== src/Profiles/Aliases.antt =====
-- `AliasManager.match_or_create` and `create_alias`.
use swat4stats.Base.{
  ℕ, ◌+◌, Bool, true, false, ◌&&◌, Option, none, some, List, [], ◌∷◌, ◌++◌, ◌==◌, ltb, holds,
  is_none,
}
use swat4stats.Base.Text.{Text, text_eq}
use swat4stats.Base.Table.{find?, update_where}
use swat4stats.Geo.{Isp, Geo}
use swat4stats.Geo.Whois.{Ipwhois}
use swat4stats.Geo.Match as GeoMatch
use swat4stats.Geo.Match.{Answer, answered, multiple_objects}
use swat4stats.Profiles.{Profile, Alias, People}
use swat4stats.Profiles.Match.{match_smart_or_create}

-- The alias's key and the flag, `ValueError`, or the exception of the provider's lookup.
pub data AliasAnswer : Type 0 where
  found : ℕ → Bool → AliasAnswer
  value_error : AliasAnswer
  isp_error : AliasAnswer

-- `alias_updated_at IS NULL OR alias_updated_at < date`
unfoldable pub is_before : Option ℕ → ℕ → Bool
is_before none date = true
is_before (some d) date = ltb d date

unfoldable pub bump_alias_updated_at : ℕ → ℕ → List Profile → List Profile
bump_alias_updated_at profile date =
    update_where (λ (p : Profile). p.pk == profile && is_before p.alias_updated_at date)
      (λ p. record p { alias_updated_at = some date })

-- `self.create(name=name, profile=profile, isp=isp)` and the bump of the profile's date
unfoldable pub add_alias : ℕ → Text → Option ℕ → ℕ → People → AliasAnswer × People
add_alias now name isp profile db = (
  found db.next_alias true,
  record db {
    aliases =
        db.aliases
        ++ record {
          pk = db.next_alias;
          name = name;
          profile = profile;
          isp = isp;
          created_at = now;
        }
          ∷ [];
    next_alias = db.next_alias + 1;
    profiles = bump_alias_updated_at profile now db.profiles;
  },
)

-- `isp`, the row that the lookup returned the key of
unfoldable pub isp_row : Option ℕ → Geo → Option Isp
isp_row none geo = none
isp_row (some i) geo = find? (λ (r : Isp). r.pk == i) geo.isps

-- `isp=isp`, where NULL is looked for as NULL
abbrev pub same_isp : Option ℕ → Option ℕ → Bool
same_isp none a = is_none a
same_isp (some i) a = holds a i

unfoldable pub is_alias : Text → Option ℕ → Alias → Bool
is_alias name isp a = text_eq a.name name && same_isp isp a.isp

module _ (upper : Text → Text) where
  unfoldable pub create_alias : ℕ → Text → ℕ → Option ℕ → People → AliasAnswer × People
  create_alias now name ip isp db =
      let ((profile, created), db') =
        match_smart_or_create upper now name ip (isp_row isp db.geo) db in
      add_alias now name isp profile db'

  unfoldable pub get_or_create :
      ℕ → Text → ℕ → Option ℕ → Option Alias → People → AliasAnswer × People
  get_or_create now name ip isp (some a) db = (found a.pk false, db)
  get_or_create now name ip isp none db = create_alias now name ip isp db

  -- What follows the lookup of the provider.
  unfoldable pub match_isp : ℕ → Text → ℕ → Answer → People → AliasAnswer × People
  match_isp now name ip multiple_objects db = (isp_error, db)
  match_isp now name ip (answered isp created) db =
      get_or_create now name ip isp (find? (is_alias name isp) db.aliases) db

  unfoldable pub match_or_create : Ipwhois → ℕ → Text → ℕ → People → AliasAnswer × People
  match_or_create whois now [] ip db = (value_error, db)
  match_or_create whois now (c ∷ s) ip db =
      let (answer, geo) = GeoMatch.match_or_create whois ip db.geo in
      match_isp now (c ∷ s) ip answer (record db { geo = geo })
