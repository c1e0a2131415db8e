-- ===== src/Profiles/Smart.antt =====
-- Which profile `match_smart` finds: its steps spelled out as tests of aliases, apart from the keyword
-- arguments that the code passes on.
use swat4stats.Base.{
  ℕ, ◌-◌, ◌*◌, ◌≡◌, refl, ap, ◌∙◌, inl, inr, Bool, true, false, ◌&&◌, Option, none, some, List, [],
  ◌∷◌, ◌++◌, ◌==◌, leb, map, holds, if◌then◌else◌, All, Option-cases, Bool-cases,
}
use mathlib.Core.Path.{fun_ext, subst}
use mathlib.Core.List.{map-append}
use swat4stats.Base.Text.{Text, text_eq}
use swat4stats.Base.Table.{find?, exists, find?_holds, find?-none, found_in}
use swat4stats.Geo.{Isp}
use swat4stats.Models.Game.{Game}
use swat4stats.Profiles.{Alias, Player, People}
use swat4stats.Profiles.Popular.{is_name_popular}
use swat4stats.Profiles.Match.{
  Lookup, fits, fits_name, fits_country, fits_player, played_since, by_name_ip, by_name_isp,
  by_name_country, by_recent_ip, country_step, isp_steps, match, match_steps,
  prepare_match_smart_steps, match_smart,
}

-- The outcome of trying tests in order on a list of aliases: the profile of an alias that passes a
-- test, where no alias passes a test before it, or none, where no alias passes any.
pub data FirstMatch (aliases : List Alias) : List (Alias → Bool) → Option ℕ → Type 0 where
  exhausted : FirstMatch aliases [] none
  here :
      (test : Alias → Bool) (tests : List (Alias → Bool)) (a : Alias)
      → ((t : Alias → Bool) → t a ≡ true → exists t aliases ≡ true)
      → test a ≡ true
      → FirstMatch aliases (test ∷ tests) (some a.profile)
  there :
      (test : Alias → Bool) (tests : List (Alias → Bool)) (o : Option ℕ)
      → All (λ a. test a ≡ false) aliases
      → FirstMatch aliases tests o
      → FirstMatch aliases (test ∷ tests) o

module _ (upper : Text → Text) (now : ℕ) (db : People) (name : Text) (ip : ℕ) where
  -- The same name, letters of either case alike.
  abbrev pub has_name : Alias → Bool
  has_name a = text_eq (upper a.name) (upper name)

  -- In a game that finished in the last 180 days.
  abbrev pub played_recently : Player → Bool
  played_recently p =
      exists (λ (g : Game). g.pk == p.game && leb (now - 180 * 24 * 60 * 60) g.date_finished)
        db.games

  abbrev pub seen_at_address : Alias → Bool
  seen_at_address a = exists (λ (p : Player). p.alias == a.pk && p.ip == ip) db.players

  abbrev pub seen_recently : Alias → Bool
  seen_recently a = exists (λ (p : Player). p.alias == a.pk && played_recently p) db.players

  abbrev pub seen_recently_at_address : Alias → Bool
  seen_recently_at_address a =
      exists (λ (p : Player). p.alias == a.pk && p.ip == ip && played_recently p) db.players

  -- The provider of the alias is in the country.
  abbrev pub is_from : Text → Alias → Bool
  is_from country a =
      exists
        (λ (i : Isp).
          holds a.isp i.pk && elim i.country [ none ↦ false | some c ↦ text_eq c country ])
        db.geo.isps

  abbrev pub country_tests : Option Text → List (Alias → Bool)
  country_tests none = []
  country_tests (some []) = []
  country_tests (some (c ∷ s)) = (λ a. has_name a && is_from (c ∷ s) a && seen_recently a) ∷ []

  abbrev pub provider_tests : Option Isp → List (Alias → Bool)
  provider_tests none = []
  provider_tests (some isp) = (λ a. has_name a && holds a.isp isp.pk) ∷ country_tests isp.country

  -- A popular name counts for nothing: only recent players of the address do. Any other name is
  -- looked for at the address, with the provider, and recently in the provider's country, and at
  -- last recent players of the address are.
  abbrev pub smart_tests : Option Isp → List (Alias → Bool)
  smart_tests isp =
      if is_name_popular name
      then seen_recently_at_address ∷ []
      else (λ a. has_name a && seen_at_address a) ∷ provider_tests isp
        ++ seen_recently_at_address ∷ []

  and_true : (b : Bool) → (b && true) ≡ b
  and_true true = refl
  and_true false = refl

  and_true-true : (b c : Bool) → (b && true && true && c) ≡ (b && c)
  and_true-true true c = refl
  and_true-true false c = refl

  exists_congr :
      {A : Type 0} (p q : A → Bool) (xs : List A)
      → ((x : A) → p x ≡ q x)
      → exists p xs ≡ exists q xs
  exists_congr p q xs h = ap (λ f. exists f xs) (fun_ext h)

  fits-by_name_ip :
      (a : Alias) → fits upper now (by_name_ip name ip) db a ≡ (has_name a && seen_at_address a)
  unfolding fits fits_name fits_country fits_player
  fits-by_name_ip a =
      and_true-true (has_name a) _
      ∙ ap (λ b. has_name a && b)
          (exists_congr _ _ db.players (λ p. and_true (p.alias == a.pk && p.ip == ip)))

  fits-by_name_isp :
      (isp : ℕ) (a : Alias)
      → fits upper now (by_name_isp name isp) db a ≡ (has_name a && holds a.isp isp)
  unfolding fits fits_name fits_country fits_player
  fits-by_name_isp isp a =
      and_true (has_name a && holds a.isp isp && true) ∙ and_true (has_name a && holds a.isp isp)

  fits-by_name_country :
      (country : Text) (a : Alias)
      → fits upper now (by_name_country name country) db a
        ≡ (has_name a && is_from country a && seen_recently a)
  unfolding fits fits_name fits_country fits_player played_since
  fits-by_name_country country a =
      ap (λ b. has_name a && true && is_from country a && b)
        (exists_congr _ _ db.players
          (λ p. ap (λ b. b && played_recently p) (and_true (p.alias == a.pk))))
      ∙ ap (λ b. b && is_from country a && seen_recently a) (and_true (has_name a))

  fits-by_recent_ip :
      (a : Alias) → fits upper now (by_recent_ip ip) db a ≡ seen_recently_at_address a
  unfolding fits fits_name fits_country fits_player played_since
  fits-by_recent_ip a = refl

  abbrev test_of : Lookup → Alias → Bool
  test_of l = fits upper now l db

  country_step-tests : (o : Option Text) → map test_of (country_step name o) ≡ country_tests o
  unfolding country_step
  country_step-tests none = refl
  country_step-tests (some []) = refl
  country_step-tests (some (c ∷ s)) = ap (λ t. t ∷ []) (fun_ext (fits-by_name_country (c ∷ s)))

  isp_steps-tests :
      (o : Option Isp) (ls : List Lookup)
      → map test_of (isp_steps name o ++ ls) ≡ provider_tests o ++ map test_of ls
  unfolding isp_steps
  isp_steps-tests none ls = refl
  isp_steps-tests (some isp) ls =
      ap (λ t. t ∷ map test_of (country_step name isp.country ++ ls))
        (fun_ext (fits-by_name_isp isp.pk))
      ∙ ap (λ ts. (λ a. has_name a && holds a.isp isp.pk) ∷ ts)
          (map-append test_of (country_step name isp.country) ls
            ∙ ap (λ ts. ts ++ map test_of ls) (country_step-tests isp.country))

  steps-tests :
      (isp : Option Isp) → map test_of (prepare_match_smart_steps name ip isp) ≡ smart_tests isp
  unfolding prepare_match_smart_steps
  steps-tests isp = elim (Bool-cases (is_name_popular name)) [
    | inl e ↦ rw e (ap (λ t. t ∷ []) (fun_ext fits-by_recent_ip))
    | inr e ↦ rw e (
        ap (λ t. t ∷ map test_of (isp_steps name isp ++ by_recent_ip ip ∷ []))
          (fun_ext fits-by_name_ip)
        ∙ ap (λ ts. (λ a. has_name a && seen_at_address a) ∷ ts)
            (isp_steps-tests isp (by_recent_ip ip ∷ [])
              ∙ ap (λ t. provider_tests isp ++ t ∷ []) (fun_ext fits-by_recent_ip)))
  ]

  match_steps-FirstMatch :
      (ls : List Lookup) → FirstMatch db.aliases (map test_of ls) (match_steps upper now ls db)
  unfolding match_steps match
  match_steps-FirstMatch [] = exhausted
  match_steps-FirstMatch (l ∷ ls) = elim (Option-cases (find? (fits upper now l db) db.aliases)) [
    | inl n ↦
        rw (match_steps, n)
          (there (test_of l) (map test_of ls) _ (find?-none _ db.aliases n)
            (match_steps-FirstMatch ls))
    | inr (a, f) ↦
        rw (match_steps, f)
          (here (test_of l) (map test_of ls) a (found_in _ db.aliases a f)
            (find?_holds _ db.aliases a f))
  ]

  -- `match_smart` answers with the profile of an alias that passes the first of its tests that any
  -- alias passes, and finds nothing where none passes any. The tests of a name that is not popular
  -- are: the name and a player at the address; the name and the provider; the name, a provider in
  -- its country and a player in the last 180 days; a player at the address in that time. For a
  -- popular name only the last one is tried, and without a provider or a country the tests that
  -- ask for it are left out.
  pub match_smart-FirstMatch :
      (isp : Option Isp)
      → FirstMatch db.aliases (smart_tests isp) (match_smart upper now name ip isp db)
  unfolding match_smart
  match_smart-FirstMatch isp =
      subst (λ ts. FirstMatch db.aliases ts (match_smart upper now name ip isp db))
        (steps-tests isp) (match_steps-FirstMatch (prepare_match_smart_steps name ip isp))
