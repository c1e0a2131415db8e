-- ===== src/Games/Highlights.antt =====
-- `get_player_with_max_points` and the first loop of `get_highlights_for_game`. The values of the
-- fields are given as functions of a player; a value that is NULL counts as 0.
use swat4stats.Base.{
  ℕ, ◌≡◌, refl, inl, inr, Bool, true, Option, none, some, List, [], ◌∷◌, arith, if◌then◌else◌, All,
  All-map, Bool-cases,
}
use swat4stats.Base.Int.{ℤ, pos, ltb_ℤ, ◌≤ℤ◌}
use swat4stats.Base.Table.{exists}

module _ {A : Type 0} where
  -- `getattr(player, field) or 0`
  abbrev pub points : (A → Option ℤ) → A → ℤ
  points field p = elim (field p) [ none ↦ pos 0 | some v ↦ v ]

  -- of a player and the best of the players behind, where `max` prefers the first
  abbrev pub max_step : (A → ℤ) → A → Option A → Option A
  max_step f p none = some p
  max_step f p (some q) = if ltb_ℤ (f p) (f q) then some q else some p

  unfoldable pub get_player_with_max_points : (A → ℤ) → List A → Option A
  get_player_with_max_points f [] = none
  get_player_with_max_points f (p ∷ ps) = max_step f p (get_player_with_max_points f ps)

  -- The highlight of a title, where its player has the points that are needed.
  abbrev pub credited : ℕ → ℤ → (A → ℤ) → Option A → Option (ℕ × A × ℤ)
  credited title m f none = none
  credited title m f (some p) = if ltb_ℤ (f p) m then none else some (title, p, f p)

  -- One round of the loop over `highlights`.
  unfoldable pub highlight : ℕ → (A → Option ℤ) → ℤ → List A → Option (ℕ × A × ℤ)
  highlight title field m players =
      credited title m (points field) (get_player_with_max_points (points field) players)

  abbrev pub append_some : Option (ℕ × A × ℤ) → List (ℕ × A × ℤ) → List (ℕ × A × ℤ)
  append_some none hs = hs
  append_some (some h) hs = h ∷ hs

  -- The loop: title, player and points of the highlights, for the entries of the table: a title, its field
  -- and its minimum.
  unfoldable pub field_highlights : List (ℕ × (A → Option ℤ) × ℤ) → List A → List (ℕ × A × ℤ)
  field_highlights [] players = []
  field_highlights ((title, field, m) ∷ rest) players =
      append_some (highlight title field m players) (field_highlights rest players)

  -- No player has more points than the one that is chosen; none is chosen of none.
  abbrev pub IsTop : (A → ℤ) → List A → Option A → Type 0
  IsTop f ps none = All (λ p. ⊥) ps
  IsTop f ps (some q) =
      ((t : A → Bool) → t q ≡ true → exists t ps ≡ true) × All (λ p. f p ≤ℤ f q) ps

  max_step-IsTop :
      (f : A → ℤ) (p : A) (ps : List A) (o : Option A)
      → IsTop f ps o
      → IsTop f (p ∷ ps) (max_step f p o)
  max_step-IsTop f p ps none h =
      ((λ t e. ground (arith, e)), (omega arith, All-map (λ q a. absurd a) ps h))
  max_step-IsTop f p ps (some q) h = elim (Bool-cases (ltb_ℤ (f p) (f q))) [
    | inl e ↦ rw e ((λ t k. ground (arith, h.0 t k)), (ground (arith, e), h.1))
    | inr e ↦
        rw e
          ((λ t k. ground (arith, k)), (omega arith, All-map (λ x l. ground (arith, l, e)) ps h.1))
  ]

  pub get_player_with_max_points-IsTop :
      (f : A → ℤ) (ps : List A) → IsTop f ps (get_player_with_max_points f ps)
  unfolding get_player_with_max_points
  get_player_with_max_points-IsTop f [] = tt
  get_player_with_max_points-IsTop f (p ∷ ps) =
      max_step-IsTop f p ps _ (get_player_with_max_points-IsTop f ps)

  -- What a highlight says: its points are those of its player, are enough, and are not less than
  -- those of any player; and without a highlight no player has enough.
  abbrev pub IsCredited : (A → ℤ) → ℤ → List A → Option (ℕ × A × ℤ) → Type 0
  IsCredited f m players none = All (λ p. ltb_ℤ (f p) m ≡ true) players
  IsCredited f m players (some (title, p, v)) =
      ((t : A → Bool) → t p ≡ true → exists t players ≡ true)
      × (v ≡ f p)
      × (m ≤ℤ v)
      × All (λ q. f q ≤ℤ v) players

  credited-IsCredited :
      (title : ℕ) (f : A → ℤ) (m : ℤ) (players : List A) (o : Option A)
      → IsTop f players o
      → IsCredited f m players (credited title m f o)
  credited-IsCredited title f m players none h = All-map (λ p a. absurd a) players h
  credited-IsCredited title f m players (some q) h = elim (Bool-cases (ltb_ℤ (f q) m)) [
    | inl e ↦ rw e (All-map (λ p l. ground (arith, l, e)) players h.1)
    | inr e ↦ rw e (h.0, refl, ground (arith, e), h.1)
  ]

  -- A highlight is given exactly if some player has the points that it asks for, and then to a
  -- player of the game with the most points, with these points.
  pub highlight-IsCredited :
      (title : ℕ) (field : A → Option ℤ) (m : ℤ) (players : List A)
      → IsCredited (points field) m players (highlight title field m players)
  unfolding highlight
  highlight-IsCredited title field m players =
      credited-IsCredited title (points field) m players _
        (get_player_with_max_points-IsTop (points field) players)
