-- ===== src/Games/Experts.antt =====
-- The experts of weapons, one for each weapon that is used well enough.
use mathlib.Core.Path.{subst}
use mathlib.Core.List.{append_assoc, append-nil}
use swat4stats.Base.{
  ℕ, ◌≡◌, refl, sym, ap, ◌∙◌, Bool, true, false, not, Option, none, some, List, [], ◌∷◌, ◌++◌,
  arith, if◌then◌else◌, map, leb, ◌&&◌, ◌==◌, ==_iff, All, All-append, All-map, All-map₂,
  Bool-cases, inl, inr,
}
use swat4stats.Base.Int.{ℤ, pos}
use swat4stats.Base.Table.{select, select-All, exists, exists-last, exists-All}
use swat4stats.Base.Text.{Text, text_eq, text_eq_refl, eq_of_text_eq}
use swat4stats.Entities.Equipment.{
  Equipment, equipment_value, primary_weapons, secondary_weapons, grenades,
}
use swat4stats.Reports.{WeaponRow}
use swat4stats.Games.Highlights.{IsTop, get_player_with_max_points-IsTop}
use swat4stats.Games.Weapons.{
  Use, named, add_use, add_uses, is_any_of, gun_weapons, qualifies, ratio_percent, accuracy, uses,
  expert, experts, get_player_weapon_highlights,
}

abbrev others : Text → List Use → List Use
others name = select (λ u. not (named name u))

-- The groups of uses by weapon: each has all uses of its weapon, of which there are some, and no
-- use is left over.
abbrev AreGroups : List Use → List (Text × List Use) → Type 0
AreGroups us [] = us ≡ []
AreGroups us ((name, users) ∷ rest) =
    (users ≡ select (named name) us)
    × (exists (λ _. true) users ≡ true)
    × AreGroups (others name us) rest

select-append :
    (p : Use → Bool) (us : List Use) (u : Use)
    → select p (us ++ u ∷ []) ≡ (if p u then select p us ++ u ∷ [] else select p us)
select-append p [] u = elim (Bool-cases (p u)) [ inl e ↦ rw e refl | inr e ↦ rw e refl ]
select-append p (x ∷ us) u = ground (arith, select-append p us u)

select-kept :
    (p : Use → Bool) (us : List Use) (u : Use)
    → p u ≡ true
    → select p (us ++ u ∷ []) ≡ select p us ++ u ∷ []
select-kept p us u e = select-append p us u ∙ rw e refl

select-left :
    (p : Use → Bool) (us : List Use) (u : Use) → p u ≡ false → select p (us ++ u ∷ []) ≡ select p us
select-left p us u e = select-append p us u ∙ rw e refl

add_use-AreGroups :
    (u : Use) (us : List Use) (d : List (Text × List Use))
    → AreGroups us d
    → AreGroups (us ++ u ∷ []) (add_use u d)
unfolding add_use
add_use-AreGroups u us [] h = rw (h, text_eq_refl u.1.name) (refl, refl, refl)
add_use-AreGroups u us ((name, users) ∷ rest) h = elim (Bool-cases (named name u)) [
  | inl e ↦ rw e (
    ap (λ v. v ++ u ∷ []) h.0 ∙ sym (select-kept (named name) us u e),
    exists-last (λ _. true) users u refl,
    subst (λ v. AreGroups v rest) (sym (select-left (λ v. not (named name v)) us u (rw e refl)))
        h.2,
  )
  | inr e ↦ rw e (
    h.0 ∙ sym (select-left (named name) us u e),
    h.1,
    subst (λ v. AreGroups v (add_use u rest))
        (sym (select-kept (λ v. not (named name v)) us u (rw e refl)))
        (add_use-AreGroups u (others name us) rest h.2),
  )
]

add_uses-AreGroups :
    (us before : List Use) (d : List (Text × List Use))
    → AreGroups before d
    → AreGroups (before ++ us) (add_uses us d)
unfolding add_uses
add_uses-AreGroups [] before d h = subst (λ v. AreGroups v d) (sym (append-nil before)) h
add_uses-AreGroups (u ∷ us) before d h =
    subst (λ v. AreGroups v (add_uses us (add_use u d))) (append_assoc before (u ∷ []) us)
      (add_uses-AreGroups us (before ++ u ∷ []) (add_use u d) (add_use-AreGroups u before d h))

-- No gun is a grenade.
not_grenade :
    (es : List Equipment) (name : Text)
    → All (λ e. is_any_of grenades (equipment_value e) ≡ false) es
    → is_any_of es name ≡ true
    → is_any_of grenades name ≡ false
unfolding is_any_of
not_grenade [] name h e = cc
not_grenade (x ∷ es) name h e = elim (Bool-cases (text_eq (equipment_value x) name)) [
  | inl f ↦ subst (λ n. is_any_of grenades n ≡ false) (eq_of_text_eq (equipment_value x) name f) h.0
  | inr f ↦ not_grenade es name h.1 (rw f at e)
]

guns_are_not_grenades :
    All (λ e. is_any_of grenades (equipment_value e) ≡ false) (primary_weapons ++ secondary_weapons)
unfolding is_any_of grenades equipment_value primary_weapons secondary_weapons
guns_are_not_grenades = ground arith

module _ (percent : ℕ → ℕ → ℕ) where
  -- The use of a gun in one game: 5 kills, 60 shots and an accuracy of 20 per cent, at least.
  abbrev pub is_good : WeaponRow → Bool
  is_good w = leb 5 w.kills && leb 60 w.shots && leb 20 (percent w.hits w.shots)

  abbrev pub is_good_gun : ℕ → WeaponRow → Bool
  is_good_gun player w =
      w.player == player && is_any_of (primary_weapons ++ secondary_weapons) w.name && is_good w

  -- The good uses of guns, player by player.
  abbrev pub good_uses : List ℕ → List WeaponRow → List Use
  good_uses [] weapons = []
  good_uses (p ∷ ps) weapons =
      map (λ w. (p, w)) (select (is_good_gun p) weapons) ++ good_uses ps weapons

  abbrev percent_of : Use → ℕ
  percent_of u = percent u.1.hits u.1.shots

  qualifies-is_good :
      (w : WeaponRow)
      → is_any_of (primary_weapons ++ secondary_weapons) w.name ≡ true
      → qualifies percent w ≡ is_good w
  unfolding qualifies accuracy ratio_percent
  qualifies-is_good w e =
      let g = not_grenade (primary_weapons ++ secondary_weapons) w.name guns_are_not_grenades e in
      ground (arith, g)

  accuracy-is_good :
      (w : WeaponRow)
      → is_any_of (primary_weapons ++ secondary_weapons) w.name ≡ true
      → is_good w ≡ true
      → accuracy percent w ≡ percent w.hits w.shots
  unfolding accuracy ratio_percent
  accuracy-is_good w e good =
      let g = not_grenade (primary_weapons ++ secondary_weapons) w.name guns_are_not_grenades e in
      ground (arith, g, good)

  select-is_good_gun :
      (p : ℕ) (weapons : List WeaponRow)
      → select (qualifies percent) (gun_weapons p weapons) ≡ select (is_good_gun p) weapons
  unfolding gun_weapons
  select-is_good_gun p [] = refl
  select-is_good_gun p (w ∷ weapons) =
      elim (Bool-cases (is_any_of (primary_weapons ++ secondary_weapons) w.name)) [
        | inl e ↦ ground (arith, e, qualifies-is_good w e, select-is_good_gun p weapons)
        | inr e ↦ ground (arith, e, select-is_good_gun p weapons)
      ]

  uses-good_uses :
      (players : List ℕ) (weapons : List WeaponRow)
      → uses percent players weapons ≡ good_uses players weapons
  unfolding uses
  uses-good_uses [] weapons = refl
  uses-good_uses (p ∷ ps) weapons =
      ap (λ ws. map (λ w. (p, w)) ws ++ uses percent ps weapons) (select-is_good_gun p weapons)
      ∙ ap (λ us. map (λ w. (p, w)) (select (is_good_gun p) weapons) ++ us)
          (uses-good_uses ps weapons)

  -- The accuracy is the percentage.
  abbrev IsExact : Use → Type 0
  IsExact u = accuracy percent u.1 ≡ percent_of u

  good_uses-IsExact :
      (players : List ℕ) (weapons : List WeaponRow) → All IsExact (good_uses players weapons)
  good_uses-IsExact [] weapons = tt
  good_uses-IsExact (p ∷ ps) weapons =
      All-append IsExact _ (good_uses ps weapons) (own p weapons) (good_uses-IsExact ps weapons)
    where
      own :
          (p : ℕ) (weapons : List WeaponRow)
          → All IsExact (map (λ w. (p, w)) (select (is_good_gun p) weapons))
      own p [] = tt
      own p (w ∷ weapons) = elim (Bool-cases (is_good_gun p w)) [
        | inl e ↦ rw e (accuracy-is_good w (ground (arith, e)) (ground (arith, e)), own p weapons)
        | inr e ↦ rw e (own p weapons)
      ]

  abbrev pub points_of : Use → ℤ
  points_of u = pos (percent_of u)

  -- Each weapon's highlight is of one of its uses, with the best accuracy of all its uses, and no
  -- use is of a weapon without a highlight.
  abbrev pub AreExperts : List Use → List (Text × Use) → Type 0
  AreExperts us [] = us ≡ []
  AreExperts us ((name, u) ∷ hs) =
      IsTop points_of (select (named name) us) (some u) × AreExperts (others name us) hs

  no_top : (users : List Use) → exists (λ _. true) users ≡ true → All (λ u. ⊥) users → ⊥
  no_top [] e h = cc
  no_top (u ∷ users) e h = h.0

  -- What holds of all items holds of one of them, for the equality of two numbers.
  IsExact-top :
      (users : List Use) (u : Use)
      → All IsExact users
      → ((t : Use → Bool) → t u ≡ true → exists t users ≡ true)
      → IsExact u
  IsExact-top users u h own = elim (Bool-cases (accuracy percent u.1 == percent_of u)) [
    | inl e ↦ (==_iff _ _).0 e
    | inr e ↦
        let t : Use → Bool = λ v. not (accuracy percent v.1 == percent_of v) in
        let none_of : exists t users ≡ false =
          exists-All t users (All-map (λ v x. ground (arith, x)) users h) in
        absurd (ground (arith, own t (rw e refl), none_of))
  ]

  IsTop-exact :
      (users : List Use) (u : Use)
      → All IsExact users
      → IsTop (λ v. pos (accuracy percent v.1)) users (some u)
      → IsTop points_of users (some u)
  IsTop-exact users u h top =
      let x = IsExact-top users u h top.0 in
      (top.0, All-map₂ (λ v e l. ground (arith, x, e, l)) users h top.1)

  expert-AreExperts :
      (us users : List Use) (name : Text) (top : Option Use) (hs : List (Text × Use))
      → users ≡ select (named name) us
      → exists (λ _. true) users ≡ true
      → All IsExact users
      → IsTop (λ v. pos (accuracy percent v.1)) users top
      → AreExperts (others name us) hs
      → AreExperts us (expert percent name top hs)
  expert-AreExperts us users name none hs e some_user x h rest = absurd (no_top users some_user h)
  expert-AreExperts us users name (some u) hs e some_user x h rest =
      (subst (λ v. IsTop points_of v (some u)) e (IsTop-exact users u x h), rest)

  experts-AreExperts :
      (us : List Use) (d : List (Text × List Use))
      → AreGroups us d
      → All IsExact us
      → AreExperts us (experts percent d)
  unfolding experts
  experts-AreExperts us [] h x = h
  experts-AreExperts us ((name, users) ∷ rest) h x =
      expert-AreExperts us users name _ (experts percent rest) h.0 h.1
        (subst (All IsExact) (sym h.0) (select-All IsExact (named name) us x))
        (get_player_with_max_points-IsTop (λ v. pos (accuracy percent v.1)) users)
        (experts-AreExperts (others name us) rest h.2
          (select-All IsExact (λ u. not (named name u)) us x))

  -- The highlights of weapons name, for each gun that some player used with at least 5 kills, 60 shots
  -- and an accuracy of 20 per cent, one such use with the best accuracy of these, and nothing else.
  pub get_player_weapon_highlights-AreExperts :
      (players : List ℕ) (weapons : List WeaponRow)
      → AreExperts
          (good_uses players weapons)
          (get_player_weapon_highlights percent players weapons)
  unfolding get_player_weapon_highlights
  get_player_weapon_highlights-AreExperts players weapons =
      let e = uses-good_uses players weapons in
      rw e (
        experts-AreExperts (good_uses players weapons) _
          (add_uses-AreGroups (good_uses players weapons) [] [] refl)
          (good_uses-IsExact players weapons))
