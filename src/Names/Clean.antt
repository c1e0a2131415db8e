-- ===== src/Names/Clean.antt =====
-- `force_clean_name` ends with a name without tags, and cleaning a clean name changes nothing.
use swat4stats.Base.{
  ℕ, zero, suc, ◌-◌, ◌≤◌, ◌<◌, ◌≡◌, refl, inl, inr, Bool, false, none, some, [], ◌∷◌, ◌++◌, arith,
  length, Option-cases, Bool-cases,
}
use swat4stats.Base.Text.{Text}
use swat4stats.Names.{
  is_space, lstrip, rstrip, rstrip_head, strip, remove, find_tag, drop_tags, force_clean_name,
}
use swat4stats.Names.Match.{tag_at_starts, find_tag-append}

length-remove-le : (m : Text) (k : ℕ) (s : Text) → length (remove m k s) ≤ length s
unfolding remove
length-remove-le m zero [] = omega arith
length-remove-le m (suc k) [] = omega arith
length-remove-le m (suc k) (c ∷ s) = omega (arith, length-remove-le m k s)
length-remove-le m zero (c ∷ s) =
    ground (arith, length-remove-le m (length m - 1) s, length-remove-le m 0 s)

-- The white space at the end of a text is what `rstrip` leaves out.
rstrip_parts : (s : Text) → (t : Text) × (rstrip s ++ t ≡ s)
unfolding rstrip rstrip_head
rstrip_parts [] = ([], refl)
rstrip_parts (c ∷ s) = let (t, e) = rstrip_parts s in parts (rstrip s) t e
  where
    parts : (r t : Text) → r ++ t ≡ s → (u : Text) × (rstrip_head c r ++ u ≡ c ∷ s)
    parts [] t e = elim (Bool-cases (is_space c)) [ inl h ↦ (c ∷ s, rw h) | inr h ↦ (s, rw h) ]
    parts (d ∷ r) t e = (t, cc e)

rstrip_idem : (s : Text) → rstrip (rstrip s) ≡ rstrip s
unfolding rstrip rstrip_head
rstrip_idem [] = refl
rstrip_idem (c ∷ s) = go (rstrip s) (rstrip_idem s)
  where
    go : (r : Text) → rstrip r ≡ r → rstrip (rstrip_head c r) ≡ rstrip_head c r
    go [] e = ground arith
    go (d ∷ r) e = rw (e, rstrip)

lstrip-rstrip : (s : Text) → lstrip (rstrip (lstrip s)) ≡ rstrip (lstrip s)
unfolding lstrip rstrip rstrip_head
lstrip-rstrip [] = refl
lstrip-rstrip (c ∷ s) = elim (Bool-cases (is_space c)) [
  | inl h ↦ rw h (lstrip-rstrip s)
  | inr h ↦ rw h (go (rstrip s) h)
]
  where
    go : (r : Text) → is_space c ≡ false → lstrip (rstrip_head c r) ≡ rstrip_head c r
    go [] h = ground arith
    go (d ∷ r) h = rw h

strip_idem : (s : Text) → strip (strip s) ≡ strip s
unfolding strip
strip_idem s = rw lstrip-rstrip (rstrip_idem (lstrip s))

module _ (is_word : ℕ → Bool) where
  -- Taking out a tag that was found makes the text shorter.
  length-remove-lt : (s m : Text) → find_tag is_word s ≡ some m → length (remove m 0 s) < length s
  unfolding find_tag remove
  length-remove-lt [] m e = cc
  length-remove-lt (c ∷ s) m e = ground (
    arith,
    tag_at_starts is_word (c ∷ s) m,
    length-remove-le m (length m - 1) s,
    length-remove-lt s m,
  )

  find_tag-drop_tags :
      (fuel : ℕ) (s : Text) → length s ≤ fuel → find_tag is_word (drop_tags is_word fuel s) ≡ none
  unfolding drop_tags
  find_tag-drop_tags zero [] h = unfold find_tag in refl
  find_tag-drop_tags zero (c ∷ s) h = absurd (omega arith)
  find_tag-drop_tags (suc fuel) s h = elim (Option-cases (find_tag is_word s)) [
    | inl e ↦ rw (e, drop_tags) e
    | inr (m, e) ↦
        rw (e, drop_tags)
          (find_tag-drop_tags fuel (remove m 0 s) (omega (arith, length-remove-lt s m e)))
  ]

  find_tag-lstrip : (s : Text) → find_tag is_word s ≡ none → find_tag is_word (lstrip s) ≡ none
  unfolding find_tag lstrip
  find_tag-lstrip [] e = refl
  find_tag-lstrip (c ∷ s) e = ground (arith, find_tag-lstrip s)

  find_tag-strip : (s : Text) → find_tag is_word s ≡ none → find_tag is_word (strip s) ≡ none
  unfolding strip
  find_tag-strip s e =
      let (t, p) = rstrip_parts (lstrip s) in
      find_tag-append is_word (rstrip (lstrip s)) t (rw p (find_tag-lstrip s e))

  -- Whatever the name, the loop ends, and no tag is left in the result.
  pub find_tag-force_clean_name : (s : Text) → find_tag is_word (force_clean_name is_word s) ≡ none
  unfolding force_clean_name
  find_tag-force_clean_name s =
      find_tag-strip (drop_tags is_word (length s) s)
        (find_tag-drop_tags (length s) s (omega arith))

  drop_tags_clean : (fuel : ℕ) (s : Text) → find_tag is_word s ≡ none → drop_tags is_word fuel s ≡ s
  unfolding drop_tags
  drop_tags_clean zero s e = refl
  drop_tags_clean (suc fuel) s e = rw (e, drop_tags)

  -- Cleaning twice is cleaning once.
  pub force_clean_name_idem :
      (s : Text)
      → force_clean_name is_word (force_clean_name is_word s) ≡ force_clean_name is_word s
  unfolding force_clean_name
  force_clean_name_idem s =
      rw (drop_tags_clean _ _ (find_tag-force_clean_name s))
        (strip_idem (drop_tags is_word (length s) s))
