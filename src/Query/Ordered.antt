-- ===== src/Query/Ordered.antt =====
-- The dictionary of the packets in the order of their numbers: what `sorted` makes of `put`.
use swat4stats.Base.{
  ◌≡◌, refl, sym, ap, ◌∙◌, inl, inr, true, false, List, [], ◌∷◌, arith, if◌then◌else◌, Bool-cases,
}
use swat4stats.Base.Int.{ℤ, ltb_ℤ}
use swat4stats.Base.Sort.{insert_by, sorted}
use swat4stats.Base.Text.{Text}
use swat4stats.Query.Collect.{eq_ℤ, put, order_before}

-- `put` on a dictionary in the order of its keys
pub put_ordered : ℤ → Text → List (ℤ × Text) → List (ℤ × Text)
put_ordered k t [] = (k, t) ∷ []
put_ordered k t ((j, u) ∷ rest) =
    if eq_ℤ j k
    then (j, t) ∷ rest
    else if ltb_ℤ k j
    then (k, t) ∷ (j, u) ∷ rest
    else (j, u) ∷ put_ordered k t rest

put_ordered-insert_same :
    (j k : ℤ) (t u : Text) (l : List (ℤ × Text))
    → eq_ℤ j k ≡ true
    → put_ordered k t (insert_by order_before (j, u) l) ≡ insert_by order_before (j, t) l
unfolding put_ordered
put_ordered-insert_same j k t u [] e = ground (arith, e)
put_ordered-insert_same j k t u ((i, v) ∷ l) e =
    ground (arith, e, put_ordered-insert_same j k t u l e)

pub eq_sym : (a b : ℤ) → eq_ℤ a b ≡ false → eq_ℤ b a ≡ false
eq_sym a b h = ground (arith, h)

-- What equal keys, and keys in a row, say of a third key.
eq-ltb : (i k j : ℤ) → eq_ℤ i k ≡ true → ltb_ℤ i j ≡ ltb_ℤ k j
eq-ltb i k j h = ground (arith, h)

ltb-eq : (i k j : ℤ) → eq_ℤ i k ≡ true → ltb_ℤ j i ≡ ltb_ℤ j k
ltb-eq i k j h = ground (arith, h)

ltb_asym : (i j : ℤ) → ltb_ℤ i j ≡ true → ltb_ℤ j i ≡ false
ltb_asym i j h = ground (arith, h)

ltb_trans : (i j k : ℤ) → ltb_ℤ i j ≡ true → ltb_ℤ j k ≡ true → ltb_ℤ i k ≡ true
ltb_trans i j k h l = ground (arith, h, l)

ltb_total : (i j : ℤ) → eq_ℤ i j ≡ false → ltb_ℤ i j ≡ false → ltb_ℤ j i ≡ true
ltb_total i j h l = ground (arith, h, l)

-- `k` is not before `j`, which is not behind `i`, which is before `k`
not_before :
    (i j k : ℤ) → eq_ℤ i k ≡ false → ltb_ℤ k i ≡ false → ltb_ℤ i j ≡ false → ltb_ℤ k j ≡ false
not_before i j k e r p = ground (arith, e, r, p)

put_ordered-insert_other :
    (j k : ℤ) (t u : Text) (l : List (ℤ × Text))
    → eq_ℤ j k ≡ false
    → put_ordered k t (insert_by order_before (j, u) l)
      ≡ insert_by order_before (j, u) (put_ordered k t l)
unfolding put_ordered
put_ordered-insert_other j k t u [] e = elim (Bool-cases (ltb_ℤ k j)) [
  | inl s ↦ rw (e, s) refl
  | inr s ↦ rw (e, s) refl
]
put_ordered-insert_other j k t u ((i, v) ∷ l) e = elim (Bool-cases (eq_ℤ i k)) [
  | inl h ↦ elim (Bool-cases (ltb_ℤ i j)) [
    | inl p ↦ rw (p, h, p) refl
    | inr p ↦ rw (p, h, e, sym (eq-ltb i k j h) ∙ p, p) refl
  ]
  | inr h ↦ elim (Bool-cases (ltb_ℤ k i)) [
    | inl r ↦ elim (Bool-cases (ltb_ℤ i j)) [
      | inl p ↦ rw (p, h, r, ltb_trans k i j r p, p) refl
      | inr p ↦ elim (Bool-cases (ltb_ℤ k j)) [
        | inl s ↦ rw (p, e, s, h, r, s, p) refl
        | inr s ↦ rw (p, e, s, h, r, s) refl
      ]
    ]
    | inr r ↦ elim (Bool-cases (ltb_ℤ i j)) [
      | inl p ↦ rw (p, h, r, p) (ap (λ x. (i, v) ∷ x) (put_ordered-insert_other j k t u l e))
      | inr p ↦ rw (p, e, not_before i j k h r p, h, r, p) refl
    ]
  ]
]

same_first :
    (j a b : ℤ) (s t u : Text) (l : List (ℤ × Text))
    → eq_ℤ a b ≡ false
    → eq_ℤ j a ≡ true
    → put_ordered a s (put_ordered b t ((j, u) ∷ l))
      ≡ put_ordered b t (put_ordered a s ((j, u) ∷ l))
unfolding put_ordered
same_first j a b s t u l e h = elim (Bool-cases (ltb_ℤ b j)) [
  | inl q ↦ simp (h, other, q, eq_sym a b e, ltb_asym b a (sym (ltb-eq j a b h) ∙ q))
  | inr q ↦ simp (h, other, q)
]
  where
    other : eq_ℤ j b ≡ false
    other = ground (arith, e, h)

pub put_ordered_comm :
    (a b : ℤ) (s t : Text) (l : List (ℤ × Text))
    → eq_ℤ a b ≡ false
    → put_ordered a s (put_ordered b t l) ≡ put_ordered b t (put_ordered a s l)
unfolding put_ordered
put_ordered_comm a b s t [] e = elim (Bool-cases (ltb_ℤ a b)) [
  | inl p ↦ rw (e, eq_sym a b e, p, ltb_asym a b p) refl
  | inr p ↦ rw (e, eq_sym a b e, p, ltb_total a b e p) refl
]
put_ordered_comm a b s t ((j, u) ∷ l) e = elim (Bool-cases (eq_ℤ j a)) [
  | inl h ↦ same_first j a b s t u l e h
  | inr h ↦ elim (Bool-cases (eq_ℤ j b)) [
    | inl k ↦ sym (same_first j b a t s u l (eq_sym a b e) k)
    | inr k ↦ elim (Bool-cases (ltb_ℤ a j)) [
      | inl p ↦ elim (Bool-cases (ltb_ℤ b j)) [
        | inl q ↦ elim (Bool-cases (ltb_ℤ a b)) [
          | inl r ↦ simp (h, k, p, q, eq_sym a b e, r, e, ltb_asym a b r)
          | inr r ↦ simp (h, k, p, q, eq_sym a b e, r, e, ltb_total a b e r)
        ]
        | inr q ↦ simp (h, k, p, q, e, not_before j a b k q (ltb_asym a j p))
      ]
      | inr p ↦ elim (Bool-cases (ltb_ℤ b j)) [
        | inl q ↦ simp (h, k, p, q, eq_sym a b e, not_before j b a h p (ltb_asym b j q))
        | inr q ↦ rw (h, k, p, q, h, k, p) (ap (λ x. (j, u) ∷ x) (put_ordered_comm a b s t l e))
      ]
    ]
  ]
]

pub sorted-put :
    (k : ℤ) (t : Text) (o : List (ℤ × Text))
    → sorted order_before (put k t o) ≡ put_ordered k t (sorted order_before o)
unfolding sorted put put_ordered
sorted-put k t [] = refl
sorted-put k t ((j, u) ∷ o) = elim (Bool-cases (eq_ℤ j k)) [
  | inl e ↦ rw e (sym (put_ordered-insert_same j k t u (sorted order_before o) e))
  | inr e ↦ rw e (
      ap (insert_by order_before (j, u)) (sorted-put k t o)
      ∙ sym (put_ordered-insert_other j k t u (sorted order_before o) e))
]
