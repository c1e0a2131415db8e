-- ===== src/Profiles/Preferred.antt =====
-- What the preferences of a profile are: the most frequent values, kept by a second update.
use swat4stats.Base.{
  ℕ, ◌≤◌, ◌≡◌, refl, inl, inr, Bool, Option, none, some, List, [], ◌∷◌, map, arith, ◌==◌, ltb, All,
  All-map, Bool-cases, true, false, ◌&&◌, ◌||◌, ap, ◌∙◌, Option-cases,
}
use swat4stats.Base.Text.{Text}
use swat4stats.Base.Table.{count_where, exists}
use swat4stats.Profiles.{Profile, Player, People, Team}
use swat4stats.Profiles.Preferences.{
  num, better, best, value, rows_since, fetch_preferred_field_for_profile, or_text, or_team, or_key,
  with_preferences, update_since, fetch_first_preferred_game_id_for_profile,
  update_preferences_for_profile,
}
use mathlib.Core.Option
use mathlib.Core.Path.{subst}

module _ {A : Type 0} (eq : A → A → Bool) where
  -- A value of the list is chosen, and no value of the list has a greater number.
  abbrev IsBest : (Option A → ℕ) → List (Option A) → Option (Option A) → Type 0
  IsBest n vs none = All (λ w. ⊥) vs
  IsBest n vs (some v) =
      ((t : Option A → Bool) → t v ≡ true → exists t vs ≡ true) × All (λ w. n w ≤ n v) vs

  IsBest-better :
      (n : Option A → ℕ) (v : Option A) (vs : List (Option A)) (o : Option (Option A))
      → IsBest n vs o
      → IsBest n (v ∷ vs) (better eq n v o)
  IsBest-better n v vs none h =
      ((λ t k. ground (arith, k)), (omega arith, All-map (λ w f. absurd f) vs h))
  IsBest-better n v vs (some w) h = elim (Bool-cases (ltb (n v) (n w))) [
    | inl e ↦ rw e ((λ t k. ground (arith, h.0 t k)), (ground (arith, e), h.1))
    | inr e ↦
        rw e
          ((λ t k. ground (arith, k)), (omega arith, All-map (λ x k. ground (arith, e, k)) vs h.1))
  ]

  best-IsBest : (n : Option A → ℕ) (vs : List (Option A)) → IsBest n vs (best eq n vs)
  unfolding best
  best-IsBest n [] = tt
  best-IsBest n (v ∷ vs) = IsBest-better n v vs (best eq n vs) (best-IsBest n vs)

  All-unmap :
      (P : Option A → Type 0) (f : Player → Option A) (rows : List Player)
      → All P (map f rows)
      → All (λ p. P (f p)) rows
  All-unmap P f [] h = tt
  All-unmap P f (p ∷ ps) h = (h.0, All-unmap P f ps h.1)

  exists-map :
      (t : Option A → Bool) (f : Player → Option A) (rows : List Player)
      → exists (λ p. t (f p)) rows ≡ exists t (map f rows)
  exists-map t f [] = refl
  exists-map t f (p ∷ rows) = ap (λ b. t (f p) || b) (exists-map t f rows)

  chosen :
      (n : Option A → ℕ) (vs : List (Option A)) (o : Option (Option A)) (a : A)
      → IsBest n vs o
      → value eq o ≡ some a
      → ((t : Option A → Bool) → t (some a) ≡ true → exists t vs ≡ true)
        × All (λ w. n w ≤ n (some a)) vs
  chosen n vs none a h e = absurd (Option.none-ne-some a e)
  chosen n vs (some v) a h e =
      subst
        (λ x. ((t : Option A → Bool) → t x ≡ true → exists t vs ≡ true) × All (λ w. n w ≤ n x) vs) e
        h

  -- The rows with a value whose counted column is not NULL.
  abbrev pub has_value : A → Option A → Bool
  has_value a none = false
  has_value a (some b) = eq b a

  abbrev pub times : (Player → Option A) → (Player → Bool) → List Player → A → ℕ
  times field counted rows a = count_where (λ p. counted p && has_value a (field p)) rows

  num-times :
      (field : Player → Option A) (counted : Player → Bool) (rows : List Player) (a : A)
      → num eq field counted rows (some a) ≡ times field counted rows a
  unfolding num
  num-times field counted [] a = refl
  num-times field counted (p ∷ rows) a = elim (Option-cases (field p)) [
    | inl e ↦ rw e (ground (arith, num-times field counted rows a))
    | inr (b, e) ↦ rw e (ground (arith, num-times field counted rows a))
  ]

  -- A value that is preferred is the value of a row of the profile since the least game, and the
  -- counted rows among these that have it are at least as many as those that have the value of any
  -- other row.
  pub fetch_preferred_field_for_profile-most :
      (profile : ℕ) (field : Player → Option A) (counted : Player → Bool) (least : ℕ) (db : People)
      (a : A)
      → fetch_preferred_field_for_profile eq profile field counted least db ≡ some a
      → let rows = rows_since profile least db in
        ((t : Option A → Bool) → t (some a) ≡ true → exists (λ p. t (field p)) rows ≡ true)
        × All
            (λ p.
              (b : A) → field p ≡ some b → times field counted rows b ≤ times field counted rows a)
            rows
  unfolding fetch_preferred_field_for_profile
  fetch_preferred_field_for_profile-most profile field counted least db a e =
      let rows = rows_since profile least db in
      let n = num eq field counted rows in
      let (is_there, most) = chosen n (map field rows) _ a (best-IsBest n (map field rows)) e in
      (
        (λ t h. exists-map t field rows ∙ is_there t h),
        All-map
            (λ p h b f.
              subst (λ m. m ≤ times field counted rows a) (num-times field counted rows b)
                (subst (λ m. n (some b) ≤ m) (num-times field counted rows a)
                  (subst (λ x. n x ≤ n (some a)) f h)))
            rows (All-unmap _ field rows most),
      )

or_text_idem : (x y : Option Text) → or_text x (or_text x y) ≡ or_text x y
or_text_idem none y = refl
or_text_idem (some []) y = refl
or_text_idem (some (c ∷ s)) y = refl

or_team_idem : (x y : Option Team) → or_team x (or_team x y) ≡ or_team x y
or_team_idem none y = refl
or_team_idem (some t) y = refl

or_key_idem : (x y : Option ℕ) → or_key x (or_key x y) ≡ or_key x y
or_key_idem none y = refl
or_key_idem (some k) y = ground arith

with_preferences_idem :
    (now least : ℕ) (db : People) (p : Profile)
    → with_preferences now least db (with_preferences now least db p)
      ≡ with_preferences now least db p
unfolding with_preferences
with_preferences_idem now least db p =
    rw (or_text_idem, or_text_idem, or_team_idem, or_key_idem) refl

with_preferences-pk :
    (now least : ℕ) (db : People) (p : Profile) → (with_preferences now least db p).pk ≡ p.pk
unfolding with_preferences
with_preferences-pk now least db p = refl

update_since-again :
    (now : ℕ) (o : Option ℕ) (db : People) (p : Profile)
    → fetch_first_preferred_game_id_for_profile p.pk db ≡ o
    → let q = update_since now o db p in
      update_since now (fetch_first_preferred_game_id_for_profile q.pk db) db q ≡ q
unfolding update_since with_preferences
update_since-again now none db p e = rw e refl
update_since-again now (some least) db p e = elim (Bool-cases (least == 0)) [
  | inl z ↦ rw (z, e) (rw z refl)
  | inr z ↦
      rw (z, with_preferences-pk now least db p, e, update_since, z)
        (with_preferences_idem now least db p)
]

-- Updating the preferences of a profile once more, with no game in between, changes nothing.
pub update_preferences_for_profile_idem :
    (now : ℕ) (db : People) (p : Profile)
    → update_preferences_for_profile now db (update_preferences_for_profile now db p)
      ≡ update_preferences_for_profile now db p
unfolding update_preferences_for_profile
update_preferences_for_profile_idem now db p = update_since-again now _ db p refl
