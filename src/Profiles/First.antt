-- ===== src/Profiles/First.antt =====
-- A known alias is found again.
use swat4stats.Base.{ℕ, ◌≡◌, refl, sym, ap, ◌∙◌, true, false, Option, none, some, [], ◌∷◌, arith}
use swat4stats.Base.Text.{Text, text_eq_refl}
use swat4stats.Base.Table.{find?, find?-append_none}
use swat4stats.Geo.{Geo}
use swat4stats.Geo.Whois.{Ipwhois}
use swat4stats.Geo.Match as GeoMatch
use swat4stats.Geo.Match.{Answer, answered, multiple_objects}
use swat4stats.Geo.Again.{again, match_or_create-again}
use swat4stats.Profiles.{Alias, People}
use swat4stats.Profiles.Match.{or_create, match_smart_or_create, create_profile}
use swat4stats.Profiles.Aliases.{
  AliasAnswer, found, value_error, isp_error, is_alias, add_alias, create_alias, get_or_create,
  match_isp, match_or_create,
}

module _ (upper : Text → Text) (now : ℕ) (db : People) where
  new_alias :
      (name : Text) (isp : Option ℕ) (pk profile : ℕ)
      → is_alias name isp
          (record { pk = pk; name = name; profile = profile; isp = isp; created_at = now })
        ≡ true
  unfolding is_alias
  new_alias name none pk profile = ground (arith, text_eq_refl name)
  new_alias name (some i) pk profile = ground (arith, text_eq_refl name)

-- what a second call answers after the first: the alias of the first, not created
abbrev pub known : AliasAnswer → AliasAnswer
known (found a created) = found a false
known value_error = value_error
known isp_error = isp_error

or_create-aliases :
    (name : Text) (o : Option ℕ) (db : People)
    → ((or_create name o db).1.aliases ≡ db.aliases) × ((or_create name o db).1.geo ≡ db.geo)
unfolding or_create create_profile
or_create-aliases name none db = (refl, refl)
or_create-aliases name (some p) db = (refl, refl)

module _ (upper : Text → Text) (now later : ℕ) (name : Text) (ip : ℕ) (isp : Option ℕ) where
  -- After an alias was added the lookup finds it.
  add_alias-found :
      (profile : ℕ) (db db' : People)
      → find? (is_alias name isp) db'.aliases ≡ none
      → let (answer, after) = add_alias now name isp profile db' in
        get_or_create upper later name ip isp (find? (is_alias name isp) after.aliases) after
        ≡ (known answer, after)
  unfolding add_alias get_or_create
  add_alias-found profile db db' n =
      rw (find?-append_none (is_alias name isp) db'.aliases _ n)
        (rw (new_alias upper now db name isp db'.next_alias profile) refl)

  create_alias-found :
      (db : People)
      → find? (is_alias name isp) db.aliases ≡ none
      → let (answer, after) = create_alias upper now name ip isp db in
        get_or_create upper later name ip isp (find? (is_alias name isp) after.aliases) after
        ≡ (known answer, after)
  unfolding create_alias match_smart_or_create
  create_alias-found db n = add_alias-found _ db _ (rw ((or_create-aliases name _ db).0) n)

  get_or_create-found :
      (o : Option Alias) (db : People)
      → find? (is_alias name isp) db.aliases ≡ o
      → let (answer, after) = get_or_create upper now name ip isp o db in
        get_or_create upper later name ip isp (find? (is_alias name isp) after.aliases) after
        ≡ (known answer, after)
  unfolding get_or_create
  get_or_create-found none db e = create_alias-found db e
  get_or_create-found (some a) db e = rw e refl

  get_or_create-geo :
      (o : Option Alias) (db : People) → (get_or_create upper now name ip isp o db).1.geo ≡ db.geo
  unfolding get_or_create create_alias match_smart_or_create add_alias
  get_or_create-geo none db = (or_create-aliases name _ db).1
  get_or_create-geo (some a) db = refl

module _ (upper : Text → Text) (now later : ℕ) (name : Text) (ip : ℕ) where
  match_isp-geo :
      (answer : Answer) (db : People) → (match_isp upper now name ip answer db).1.geo ≡ db.geo
  unfolding match_isp
  match_isp-geo multiple_objects db = refl
  match_isp-geo (answered isp b) db = get_or_create-geo upper now later name ip isp _ db

  match_isp-again :
      (answer : Answer) (db : People)
      → let (a, after) = match_isp upper now name ip answer db in
        match_isp upper later name ip (again answer) after ≡ (known a, after)
  unfolding match_isp
  match_isp-again multiple_objects db = refl
  match_isp-again (answered isp b) db = get_or_create-found upper now later name ip isp _ db refl

-- The lookup of the provider, where it answers as it answered before.
same_provider :
    (upper : Text → Text) (whois : Ipwhois) (later c : ℕ) (s : Text) (ip : ℕ) (a : Answer) (g : Geo)
    (after : People)
    → after.geo ≡ g
    → GeoMatch.match_or_create whois ip g ≡ (a, g)
    → match_or_create upper whois later (c ∷ s) ip after ≡ match_isp upper later (c ∷ s) ip a after
unfolding match_or_create
same_provider upper whois later c s ip a g after e q =
    ap (λ (r : Answer × Geo). match_isp upper later (c ∷ s) ip r.0 (record after { geo = r.1 }))
      (ap (GeoMatch.match_or_create whois ip) e ∙ q)
    ∙ ap (λ h. match_isp upper later (c ∷ s) ip a (record after { geo = h })) (sym e)

-- Looking an alias up once more, at any later time and with the same whois answers, gives the
-- alias of the first lookup, creates nothing and leaves all tables as the first lookup left them;
-- the errors are given again as well.
pub match_or_create_again :
    (upper : Text → Text) (whois : Ipwhois) (now later : ℕ) (name : Text) (ip : ℕ) (db : People)
    → let (answer, after) = match_or_create upper whois now name ip db in
      match_or_create upper whois later name ip after ≡ (known answer, after)
unfolding match_or_create
match_or_create_again upper whois now later [] ip db = refl
match_or_create_again upper whois now later (c ∷ s) ip db =
    let (answer, geo) = GeoMatch.match_or_create whois ip db.geo in
    same_provider upper whois later c s ip (again answer) geo
      (match_isp upper now (c ∷ s) ip answer (record db { geo = geo })).1
      (match_isp-geo upper now later (c ∷ s) ip answer (record db { geo = geo }))
      (match_or_create-again whois ip db.geo)
    ∙ match_isp-again upper now later (c ∷ s) ip answer (record db { geo = geo })
