-- ===== src/Stats/Positions.antt =====
-- The order of the positions that `rank` gives within a partition.
use swat4stats.Base.{
  refl, ap, ◌<◌, ◌≤◌, ◌≡◌, ◌≢◌, ◌⊎◌, ◌↔◌, inl, inr, Bool-cases, Bool, true, false, ◌&&◌, not, List,
  [], ◌∷◌, arith, All, All-map,
}
use swat4stats.Base.Int.{ℤ, pos, negsuc, ◌≤ℤ◌, ltb_ℤ, pos_part, neg_part}
use swat4stats.Base.Table.{count_where, exists}
use swat4stats.Stats.{Stat, same_partition}
use swat4stats.Stats.Rank.{before, row_number}

module _ {ℓ} {A : Type ℓ} where
  exists_self : (xs : List A) → All (λ r. (t : A → Bool) → t r ≡ true → exists t xs ≡ true) xs
  exists_self [] = tt
  exists_self (r ∷ xs) =
      ((λ t e. ground (arith, e)), All-map (λ s h t e. ground (arith, h t e)) xs (exists_self xs))

  count_where_mono :
      (p q : A → Bool) (xs : List A)
      → ((x : A) → p x ≡ true → q x ≡ true)
      → count_where p xs ≤ count_where q xs
  count_where_mono p q [] h = omega arith
  count_where_mono p q (x ∷ xs) h = ground (arith, h x, count_where_mono p q xs h)

  count_where_strict :
      (p q : A → Bool) (xs : List A)
      → ((x : A) → p x ≡ true → q x ≡ true)
      → exists (λ x. q x && not (p x)) xs ≡ true
      → count_where p xs < count_where q xs
  count_where_strict p q [] h e = ground arith
  count_where_strict p q (x ∷ xs) h e =
      ground (arith, h x, count_where_mono p q xs h, count_where_strict p q xs h)

later_is_behind :
    (selected : List Stat) (r s : Stat)
    → same_partition r s ≡ true
    → before r s ≡ false
    → row_number selected s ≤ row_number selected r
unfolding row_number before
later_is_behind selected r s g e = omega (
  arith,
  count_where_mono (λ x. same_partition x s && before x s) (λ x. same_partition x r && before x r)
      selected (λ x h. ground (arith, g, e, h)),
)

earlier_is_ahead :
    (selected : List Stat) (r s : Stat)
    → ((t : Stat → Bool) → t r ≡ true → exists t selected ≡ true)
    → same_partition r s ≡ true
    → before r s ≡ true
    → row_number selected r < row_number selected s
unfolding row_number before
earlier_is_ahead selected r s m g e = omega (
  arith,
  count_where_strict (λ x. same_partition x r && before x r) (λ x. same_partition x s && before x s)
      selected (λ x h. ground (arith, g, e, h)) (m _ (ground (arith, g, e))),
)

within_partition :
    (selected : List Stat) (r : Stat)
    → ((t : Stat → Bool) → t r ≡ true → exists t selected ≡ true)
    → row_number selected r ≤ count_where (λ x. same_partition x r) selected
unfolding row_number before
within_partition selected r m = omega (
  arith,
  count_where_strict (λ x. same_partition x r && before x r) (λ x. same_partition x r) selected
      (λ x h. ground (arith, h)) (m _ (ground arith)),
)

one_at_least : (selected : List Stat) (r : Stat) → 1 ≤ row_number selected r
unfolding row_number
one_at_least selected r = omega arith

order_iff :
    (selected : List Stat) (r s : Stat)
    → ((t : Stat → Bool) → t r ≡ true → exists t selected ≡ true)
    → same_partition r s ≡ true
    → (before r s ≡ true) ↔ (row_number selected r < row_number selected s)
order_iff selected r s m g = elim (Bool-cases (before r s)) [
  | inl e ↦ ((λ _. earlier_is_ahead selected r s m g e), (λ _. e))
  | inr e ↦ ((λ f. cc), (λ h. ground (arith, h, later_is_behind selected r s g e)))
]

-- More points, or the same points and the smaller key.
abbrev pub IsAhead : Stat → Stat → Type 0
IsAhead r s =
    ((s.points ≤ℤ r.points) × (r.points ≢ s.points)) ⊎ ((r.points ≡ s.points) × (r.pk < s.pk))

abbrev pub IsInOrder : List Stat → Type 0
IsInOrder selected =
    All
      (λ r.
        (1 ≤ row_number selected r)
        × (row_number selected r ≤ count_where (λ x. same_partition x r) selected)
        × ((s : Stat)
            → same_partition r s ≡ true
            → IsAhead r s ↔ (row_number selected r < row_number selected s)))
      selected

antisym : (a b : ℤ) → a ≤ℤ b → b ≤ℤ a → a ≡ b
antisym (pos m) (pos n) h k = ap pos (omega (arith, h, k))
antisym (pos m) (negsuc n) h k = absurd (omega (arith, h, k))
antisym (negsuc m) (pos n) h k = absurd (omega (arith, h, k))
antisym (negsuc m) (negsuc n) h k = ap negsuc (omega (arith, h, k))

less_ne : (a b : ℤ) → ltb_ℤ a b ≡ true → b ≢ a
less_ne a b l e = absurd (ground (arith, l, ap pos_part e, ap neg_part e))

before-IsAhead : (r s : Stat) → before r s ≡ true → IsAhead r s
unfolding before
before-IsAhead r s e = elim (Bool-cases (ltb_ℤ s.points r.points)) [
  | inl l ↦ inl (ground (arith, l), less_ne s.points r.points l)
  | inr l ↦
      inr
        (antisym r.points s.points (ground (arith, l)) (ground (arith, e, l)), ground (arith, e, l))
]

IsAhead-before : (r s : Stat) → IsAhead r s → before r s ≡ true
unfolding before
IsAhead-before r s (inl (le, ne)) = elim (Bool-cases (ltb_ℤ s.points r.points)) [
  | inl l ↦ rw l refl
  | inr l ↦ absurd (ne (antisym r.points s.points (ground (arith, l)) le))
]
IsAhead-before r s (inr (e, l)) = rw e (ground (arith, l))

IsAhead-iff :
    (selected : List Stat) (r s : Stat)
    → ((t : Stat → Bool) → t r ≡ true → exists t selected ≡ true)
    → same_partition r s ≡ true
    → IsAhead r s ↔ (row_number selected r < row_number selected s)
IsAhead-iff selected r s m g =
    let (to, from) = order_iff selected r s m g in
    ((λ h. to (IsAhead-before r s h)), (λ h. before-IsAhead r s (from h)))

-- For a selected row `r`: its number is at least 1 and at most the size of its partition, and for
-- any row `s` of the same partition, `r` has a smaller number than `s` exactly if `r`
-- is ahead of `s`, by more points or by the same points and the smaller key.
pub row_number_order : (selected : List Stat) → IsInOrder selected
row_number_order selected =
    All-map
      (λ r m. (
        one_at_least selected r,
        within_partition selected r m,
        (λ s g. IsAhead-iff selected r s m g),
      ))
      selected (exists_self selected)
