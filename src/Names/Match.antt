-- ===== src/Names/Match.antt =====
-- What the pattern matches: a text that is not empty and stands at the head; and more text behind
-- a tag leaves it a tag.
use swat4stats.Base.{
  ℕ, ◌<◌, ◌≡◌, refl, inl, inr, Bool, true, none, some, [], ◌∷◌, ◌++◌, arith, length, is_some,
  Option-cases,
}
use swat4stats.Base.Text.{Text}
use swat4stats.Names.{short_tag, until_bracket, long_tag, tag_at, find_tag, starts_with}

until_bracket_starts : (s m : Text) → until_bracket s ≡ some m → starts_with m s ≡ true
unfolding until_bracket starts_with
until_bracket_starts [] m e = cc
until_bracket_starts (c ∷ s) m e = elim (Option-cases (until_bracket s)) [
  | inl q ↦ ground (arith, q)
  | inr (r, q) ↦ ground (arith, q, until_bracket_starts s r q)
]

short_tag_starts : (s m : Text) → short_tag s ≡ some m → (starts_with m s ≡ true) × (0 < length m)
unfolding short_tag starts_with
short_tag_starts [] m e = cc
short_tag_starts (a ∷ []) m e = cc
short_tag_starts (a ∷ b ∷ []) m e = cc
short_tag_starts (a ∷ b ∷ c ∷ []) m e = ground arith
short_tag_starts (a ∷ b ∷ c ∷ d ∷ s) m e = ground arith

until_bracket-append :
    (s t : Text) → is_some (until_bracket s) ≡ true → is_some (until_bracket (s ++ t)) ≡ true
unfolding until_bracket
until_bracket-append [] t e = cc
until_bracket-append (c ∷ s) t e = ground (arith, until_bracket-append s t)

short_tag-append : (s t : Text) → is_some (short_tag s) ≡ true → is_some (short_tag (s ++ t)) ≡ true
unfolding short_tag
short_tag-append [] t e = cc
short_tag-append (a ∷ []) t e = cc
short_tag-append (a ∷ b ∷ []) t e = cc
short_tag-append (a ∷ b ∷ c ∷ []) [] e = ground arith
short_tag-append (a ∷ b ∷ c ∷ []) (d ∷ t) e = ground arith
short_tag-append (a ∷ b ∷ c ∷ d ∷ s) t e = ground arith

module _ (is_word : ℕ → Bool) where
  long_tag_starts :
      (s m : Text) → long_tag is_word s ≡ some m → (starts_with m s ≡ true) × (0 < length m)
  unfolding long_tag starts_with
  long_tag_starts [] m e = cc
  long_tag_starts (a ∷ []) m e = cc
  long_tag_starts (a ∷ b ∷ []) m e = cc
  long_tag_starts (a ∷ b ∷ c ∷ s) m e = elim (Option-cases (until_bracket s)) [
    | inl q ↦ absurd (ground (arith, q))
    | inr (r, q) ↦ ground (arith, q, until_bracket_starts s r q)
  ]

  pub tag_at_starts :
      (s m : Text) → tag_at is_word s ≡ some m → (starts_with m s ≡ true) × (0 < length m)
  unfolding tag_at
  tag_at_starts s m e = ground (arith, short_tag_starts s m, long_tag_starts s m)

  long_tag-append :
      (s t : Text)
      → is_some (long_tag is_word s) ≡ true
      → is_some (long_tag is_word (s ++ t)) ≡ true
  unfolding long_tag
  long_tag-append [] t e = cc
  long_tag-append (a ∷ []) t e = cc
  long_tag-append (a ∷ b ∷ []) t e = cc
  long_tag-append (a ∷ b ∷ c ∷ s) t e = ground (arith, until_bracket-append s t)

  pub tag_at-append : (s t : Text) → tag_at is_word (s ++ t) ≡ none → tag_at is_word s ≡ none
  unfolding tag_at
  tag_at-append s t e = ground (arith, short_tag-append s t, long_tag-append s t)

  -- A prefix of a text without tags has none.
  pub find_tag-append : (s t : Text) → find_tag is_word (s ++ t) ≡ none → find_tag is_word s ≡ none
  unfolding find_tag
  find_tag-append [] t e = refl
  find_tag-append (c ∷ s) t e = ground (arith, tag_at-append (c ∷ s) t, find_tag-append s t)
