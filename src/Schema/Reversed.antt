-- ===== src/Schema/Reversed.antt =====
-- The inverted tables are inverses: no two codes of a table stand for the same text.
use swat4stats.Base.{
  ◌≡◌, ◌↔◌, refl, sym, ap, ◌∙◌, Bool, true, ◌&&◌, Option, none, some, [], ◌∷◌, arith, if◌then◌else◌,
  is_none, Bool-cases, Option-cases, inl, inr,
}
use swat4stats.Base.Eq.{Eq, nat_eq, codes_eq, option_eq}
use mathlib.Core.Option
use swat4stats.Schema.Dict.{Dict, get, set, distinct, reverse_into, reversed}
use swat4stats.Schema.Codes.{
  coop_status_encoded, coop_status_reversed, outcome_encoded, outcome_reversed,
  objective_status_encoded, objective_status_reversed, procedures_encoded, procedures_reversed,
}
use swat4stats.Schema.Maps.{mapnames_encoded, mapnames_reversed}
use swat4stats.Schema.Objectives.{objectives_encoded, objectives_reversed}
use swat4stats.Schema.Items.{
  equipment_encoded, equipment_reversed, weapon_encoded, weapon_reversed, ammo_encoded,
  ammo_reversed,
}

abbrev or_else : {K : Type 0} → Option K → Option K → Option K
or_else none o = o
or_else (some k) o = some k

same_key : {V : Type 0} ⦃f : Eq V⦄ (v w u : V) → f.same v w ≡ true → f.same v u ≡ f.same w u
same_key ⦃f⦄ v w u h = ap (λ x. f.same x u) (f.same_sound v w h)

module _ {K V : Type 0} ⦃e : Eq K⦄ ⦃f : Eq V⦄ where
  -- The last key with a value.
  abbrev last_key : V → Dict K V → Option K
  last_key v [] = none
  last_key v ((k, w) ∷ d) = elim (last_key v d) [
    | some l ↦ some l
    | none ↦ if f.same v w then some k else none
  ]

  abbrev distinct_values : Dict K V → Bool
  distinct_values [] = true
  distinct_values ((k, v) ∷ d) = is_none (last_key v d) && distinct_values d

  get-set :
      (v w : V) (k : K) (d : Dict V K)
      → get v (set w k d) ≡ (if f.same v w then some k else get v d)
  get-set v w k [] = refl
  get-set v w k ((u, l) ∷ d) = elim (Bool-cases (f.same v w)) [
    | inl h ↦ ground (arith, h, get-set v w k d, same_key v w u h)
    | inr h ↦ elim (Bool-cases (f.same w u)) [
      | inl g ↦ ground (arith, h, g, f.same_sound w u g)
      | inr g ↦ ground (arith, h, g, get-set v w k d)
    ]
  ]

  get-reverse_into :
      (v : V) (d : Dict K V) (acc : Dict V K)
      → get v (reverse_into acc d) ≡ or_else (last_key v d) (get v acc)
  get-reverse_into v [] acc = refl
  get-reverse_into v ((k, w) ∷ d) acc =
      get-reverse_into v d (set w k acc) ∙ ground (arith, get-set v w k acc)

  get-reversed : (v : V) (d : Dict K V) → get v (reversed d) ≡ last_key v d
  unfolding reversed
  get-reversed v d = get-reverse_into v d [] ∙ or_none (last_key v d)
    where
      or_none : (o : Option K) → or_else o none ≡ o
      or_none none = refl
      or_none (some k) = refl

  last_key_only :
      (k : K) (v : V) (d : Dict K V)
      → distinct_values d ≡ true
      → get k d ≡ some v
      → last_key v d ≡ some k
  last_key_only k v [] u h = absurd (Option.none-ne-some v h)
  last_key_only k v ((l, w) ∷ d) u h = elim (Bool-cases (e.same k l)) [
    | inl q ↦
        let wv : w ≡ v = Option.some-injective w v (rw q at h) in
        let kl : k ≡ l = e.same_sound k l q in
        let absent : last_key v d ≡ none = rw (← wv) (ground arith) in
        ground (arith, absent, wv, kl, f.same_refl v)
    | inr q ↦ ground (arith, q, last_key_only k v d)
  ]

  get_last :
      (k : K) (v : V) (d : Dict K V) → distinct d ≡ true → last_key v d ≡ some k → get k d ≡ some v
  get_last k v [] u h = absurd (Option.none-ne-some k h)
  get_last k v ((l, w) ∷ d) u h = elim (Option-cases (last_key v d)) [
    | inl none_left ↦ ground (arith, none_left, f.same_sound v w, e.same_refl k)
    | inr (m, found) ↦ ground (arith, found, get_last k v d, e.same_sound k l)
  ]

  -- A table and its inverse say the same.
  abbrev pub AreInverse : Dict K V → Dict V K → Type 0
  AreInverse d r = (k : K) (v : V) → (get k d ≡ some v) ↔ (get v r ≡ some k)

  reversed-AreInverse :
      (d : Dict K V) → distinct d ≡ true → distinct_values d ≡ true → AreInverse d (reversed d)
  reversed-AreInverse d u w k v = (
    (λ h. get-reversed v d ∙ last_key_only k v d w h),
    λ h. get_last k v d u (sym (get-reversed v d) ∙ h),
  )

coop_status-AreInverse : AreInverse coop_status_encoded coop_status_reversed
unfolding coop_status_encoded coop_status_reversed
coop_status-AreInverse = reversed-AreInverse coop_status_encoded refl refl

outcome-AreInverse : AreInverse outcome_encoded outcome_reversed
unfolding outcome_encoded outcome_reversed
outcome-AreInverse = reversed-AreInverse outcome_encoded refl refl

objective_status-AreInverse : AreInverse objective_status_encoded objective_status_reversed
unfolding objective_status_encoded objective_status_reversed
objective_status-AreInverse = reversed-AreInverse objective_status_encoded refl refl

procedures-AreInverse : AreInverse procedures_encoded procedures_reversed
unfolding procedures_encoded procedures_reversed
procedures-AreInverse = reversed-AreInverse procedures_encoded refl refl

mapnames-AreInverse : AreInverse mapnames_encoded mapnames_reversed
unfolding mapnames_encoded mapnames_reversed
mapnames-AreInverse = reversed-AreInverse mapnames_encoded refl refl

objectives-AreInverse : AreInverse objectives_encoded objectives_reversed
unfolding objectives_encoded objectives_reversed
objectives-AreInverse = reversed-AreInverse objectives_encoded refl refl

equipment-AreInverse : AreInverse equipment_encoded equipment_reversed
unfolding equipment_encoded equipment_reversed
equipment-AreInverse = reversed-AreInverse equipment_encoded refl refl

weapon-AreInverse : AreInverse weapon_encoded weapon_reversed
unfolding weapon_encoded weapon_reversed
weapon-AreInverse = reversed-AreInverse weapon_encoded refl refl

ammo-AreInverse : AreInverse ammo_encoded ammo_reversed
unfolding ammo_encoded ammo_reversed
ammo-AreInverse = reversed-AreInverse ammo_encoded refl refl

-- Of the tables of statuses, outcomes, procedures, maps, objectives, equipment, weapons and
-- ammunition, each maps a code to a text exactly if its inverse maps the text to the code: no two
-- codes share a text, so that the legacy columns of a game say which code was received.
pub tables_reversed :
    AreInverse coop_status_encoded coop_status_reversed
    × AreInverse outcome_encoded outcome_reversed
    × AreInverse objective_status_encoded objective_status_reversed
    × AreInverse procedures_encoded procedures_reversed
    × AreInverse mapnames_encoded mapnames_reversed
    × AreInverse objectives_encoded objectives_reversed
    × AreInverse equipment_encoded equipment_reversed
    × AreInverse weapon_encoded weapon_reversed
    × AreInverse ammo_encoded ammo_reversed
tables_reversed = (
  coop_status-AreInverse, outcome-AreInverse, objective_status-AreInverse, procedures-AreInverse,
  mapnames-AreInverse, objectives-AreInverse, equipment-AreInverse, weapon-AreInverse,
  ammo-AreInverse,
)
