-- ===== src/Profiles/Links.antt =====
-- Every alias belongs to a profile of the table, whatever is looked up or created.
use swat4stats.Base.{
  ℕ, ◌≡◌, refl, inl, inr, Bool, true, Option, none, some, List, [], ◌∷◌, ◌++◌, arith, ◌==◌, All,
  All-map, All-append, Option-cases,
}
use swat4stats.Base.Text.{Text}
use swat4stats.Base.Table.{find?, exists, find?-All}
use swat4stats.Geo.{Geo}
use swat4stats.Geo.Whois.{Ipwhois}
use swat4stats.Geo.Match as GeoMatch
use swat4stats.Geo.Match.{Answer, answered, multiple_objects}
use swat4stats.Profiles.{Profile, Alias, People}
use swat4stats.Profiles.Match.{
  Lookup, fits, match, match_steps, prepare_match_smart_steps, match_smart, or_create,
  match_smart_or_create, create_profile,
}
use swat4stats.Profiles.Aliases.{
  bump_alias_updated_at, isp_row, add_alias, create_alias, get_or_create, match_isp,
  match_or_create,
}

unfoldable pub has_profile : List Profile → ℕ → Bool
has_profile profiles pk = exists (λ (p : Profile). p.pk == pk) profiles

abbrev pub IsLinked : People → Type 0
IsLinked db = All (λ (a : Alias). has_profile db.profiles a.profile ≡ true) db.aliases

has_profile-append :
    (ps : List Profile) (q : Profile) (pk : ℕ)
    → has_profile ps pk ≡ true
    → has_profile (ps ++ q ∷ []) pk ≡ true
unfolding has_profile
has_profile-append [] q pk h = cc
has_profile-append (p ∷ ps) q pk h = ground (arith, has_profile-append ps q pk)

has_profile-new : (ps : List Profile) (q : Profile) → has_profile (ps ++ q ∷ []) q.pk ≡ true
unfolding has_profile
has_profile-new [] q = ground arith
has_profile-new (p ∷ ps) q = ground (arith, has_profile-new ps q)

has_profile-bump :
    (profile date : ℕ) (ps : List Profile) (pk : ℕ)
    → has_profile (bump_alias_updated_at profile date ps) pk ≡ has_profile ps pk
unfolding has_profile bump_alias_updated_at
has_profile-bump profile date [] pk = refl
has_profile-bump profile date (p ∷ ps) pk = ground (arith, has_profile-bump profile date ps pk)

add_alias-IsLinked :
    (now : ℕ) (name : Text) (isp : Option ℕ) (profile : ℕ) (db : People)
    → has_profile db.profiles profile ≡ true
    → IsLinked db
    → IsLinked (add_alias now name isp profile db).1
unfolding add_alias
add_alias-IsLinked now name isp profile db h l =
    All-append _ db.aliases _
      (All-map (λ a k. rw (has_profile-bump profile now db.profiles) k) db.aliases l)
      (rw (has_profile-bump profile now db.profiles) h, tt)

module _ (upper : Text → Text) (now : ℕ) where
  -- What a lookup finds is the key of a profile.
  Found : People → Option ℕ → Type 0
  Found db none = Unit
  Found db (some p) = has_profile db.profiles p ≡ true

  match_steps-Found :
      (ls : List Lookup) (db : People) → IsLinked db → Found db (match_steps upper now ls db)
  unfolding match_steps match Found
  match_steps-Found [] db l = tt
  match_steps-Found (s ∷ ls) db l = elim (Option-cases (find? (fits upper now s db) db.aliases)) [
    | inl n ↦ rw (match_steps, n) (match_steps-Found ls db l)
    | inr (a, f) ↦ rw (match_steps, f) (find?-All _ _ db.aliases a l f)
  ]

  or_create-IsLinked :
      (name : Text) (o : Option ℕ) (db : People)
      → IsLinked db
      → Found db o
      → let ((profile, created), after) = or_create name o db in
        IsLinked after × (has_profile after.profiles profile ≡ true)
  unfolding or_create create_profile Found
  or_create-IsLinked name none db l f = (
    All-map (λ a h. has_profile-append db.profiles _ a.profile h) db.aliases l,
    has_profile-new db.profiles _,
  )
  or_create-IsLinked name (some p) db l f = (l, f)

  get_or_create-IsLinked :
      (name : Text) (ip : ℕ) (isp : Option ℕ) (o : Option Alias) (db : People)
      → IsLinked db
      → IsLinked (get_or_create upper now name ip isp o db).1
  unfolding get_or_create create_alias match_smart_or_create match_smart
  get_or_create-IsLinked name ip isp (some a) db l = l
  get_or_create-IsLinked name ip isp none db l =
      let r =
        or_create-IsLinked name _ db l
          (match_steps-Found (prepare_match_smart_steps name ip (isp_row isp db.geo)) db l) in
      add_alias-IsLinked now name isp _ _ r.1 r.0

  -- Where each alias belongs to a profile of the table, this is so after a lookup that may create
  -- an alias and a profile, also where it ends with an error.
  pub match_or_create-IsLinked :
      (whois : Ipwhois) (name : Text) (ip : ℕ) (db : People)
      → IsLinked db
      → IsLinked (match_or_create upper whois now name ip db).1
  unfolding match_or_create match_isp
  match_or_create-IsLinked whois [] ip db l = l
  match_or_create-IsLinked whois (c ∷ s) ip db l = answer (GeoMatch.match_or_create whois ip db.geo)
    where
      answer :
          (r : Answer × Geo)
          → IsLinked (match_isp upper now (c ∷ s) ip r.0 (record db { geo = r.1 })).1
      answer (multiple_objects, geo) = l
      answer (answered isp b, geo) =
          get_or_create-IsLinked (c ∷ s) ip isp _ (record db { geo = geo }) l
