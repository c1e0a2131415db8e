-- ===== src/Games/Coop.antt =====
-- `_calculate_coop_score_for_procedures` and `calculate_coop_rank_for_score`.
use swat4stats.Base.{
  ℕ, ◌≤◌, ◌≡◌, refl, inl, inr, Bool, true, Option, none, some, List, [], ◌∷◌, arith, if◌then◌else◌,
  Bool-cases,
}
use swat4stats.Base.Int.{ℤ, pos, ◌+ℤ◌, ◌≤ℤ◌, leb_ℤ}

-- `CoopRank`, from the best to the worst
pub data CoopRank : Type 0 where
  chief_inspector : CoopRank
  inspector : CoopRank
  captain : CoopRank
  lieutenant : CoopRank
  sergeant : CoopRank
  patrol_officer : CoopRank
  reserve_officer : CoopRank
  non_sworn_officer : CoopRank
  recruit : CoopRank
  washout : CoopRank
  vigilante : CoopRank
  menace : CoopRank

-- `sum(proc["score"] for proc in procedures)`
unfoldable pub total : List ℤ → ℤ
total [] = pos 0
total (s ∷ ss) = s +ℤ total ss

abbrev pub min_ℤ : ℤ → ℤ → ℤ
min_ℤ a b = if leb_ℤ a b then a else b

-- The scores of the procedures; a game may report none, which an empty list is as well.
unfoldable pub calculate_coop_score_for_procedures : Option (List ℤ) → ℤ
calculate_coop_score_for_procedures none = pos 0
calculate_coop_score_for_procedures (some []) = pos 0
calculate_coop_score_for_procedures (some (s ∷ ss)) = min_ℤ (pos 100) (total (s ∷ ss))

-- `score >= min_score`, where none stands for `-math.inf`
abbrev pub reaches : Option ℕ → ℤ → Bool
reaches none score = true
reaches (some n) score = leb_ℤ (pos n) score

-- `coop_min_score_for_rank`
abbrev pub coop_min_score_for_rank : List (Option ℕ × CoopRank)
coop_min_score_for_rank =
    (some 100, chief_inspector)
    ∷ (some 95, inspector)
    ∷ (some 90, captain)
    ∷ (some 85, lieutenant)
    ∷ (some 80, sergeant)
    ∷ (some 75, patrol_officer)
    ∷ (some 70, reserve_officer)
    ∷ (some 60, non_sworn_officer)
    ∷ (some 50, recruit)
    ∷ (some 35, washout)
    ∷ (some 20, vigilante)
    ∷ (none, menace)
    ∷ []

unfoldable pub first_rank : List (Option ℕ × CoopRank) → ℤ → Option CoopRank
first_rank [] score = none
first_rank ((min_score, rank) ∷ rest) score =
    let later = first_rank rest score in if reaches min_score score then some rank else later

unfoldable pub calculate_coop_rank_for_score : ℤ → Option CoopRank
calculate_coop_rank_for_score score = first_rank coop_min_score_for_rank score

-- the place of a rank in the list, counted from the best
abbrev pub place : CoopRank → ℕ
place chief_inspector = 0
place inspector = 1
place captain = 2
place lieutenant = 3
place sergeant = 4
place patrol_officer = 5
place reserve_officer = 6
place non_sworn_officer = 7
place recruit = 8
place washout = 9
place vigilante = 10
place menace = 11

abbrev pub NotWorse : Option CoopRank → Option CoopRank → Type 0
NotWorse none r = ⊥
NotWorse (some r) none = ⊥
NotWorse (some r) (some s) = place r ≤ place s

reaches_mono : (n : Option ℕ) (a b : ℤ) → a ≤ℤ b → reaches n a ≡ true → reaches n b ≡ true
reaches_mono none a b h e = refl
reaches_mono (some n) a b h e = ground (arith, h, e)

-- The list of the ranks from some place on, with each minimum at most the one before.
abbrev IsLadder : ℕ → List (Option ℕ × CoopRank) → Type 0
IsLadder n [] = ⊥
IsLadder n ((none, r) ∷ rest) = n ≤ place r
IsLadder n ((some m, r) ∷ rest) = (n ≤ place r) × IsLadder (place r) rest

AtLeast : ℕ → Option CoopRank → Type 0
AtLeast n none = ⊥
AtLeast n (some r) = n ≤ place r

AtLeast-weaken : (n m : ℕ) (o : Option CoopRank) → n ≤ m → AtLeast m o → AtLeast n o
unfolding AtLeast
AtLeast-weaken n m none h k = k
AtLeast-weaken n m (some r) h k = omega (arith, h, k)

AtLeast-NotWorse : (s : CoopRank) (o : Option CoopRank) → AtLeast (place s) o → NotWorse (some s) o
unfolding AtLeast
AtLeast-NotWorse s none h = h
AtLeast-NotWorse s (some r) h = h

first_rank-AtLeast :
    (n : ℕ) (rows : List (Option ℕ × CoopRank)) (score : ℤ)
    → IsLadder n rows
    → AtLeast n (first_rank rows score)
unfolding first_rank AtLeast
first_rank-AtLeast n [] score l = absurd l
first_rank-AtLeast n ((none, s) ∷ rest) score l = l
first_rank-AtLeast n ((some m, s) ∷ rest) score l = elim (Bool-cases (leb_ℤ (pos m) score)) [
  | inl e ↦ rw (first_rank, e) l.0
  | inr e ↦
      rw (first_rank, e)
        (AtLeast-weaken n (place s) (first_rank rest score) l.0
          (first_rank-AtLeast (place s) rest score l.1))
]

first_rank_mono :
    (n : ℕ) (rows : List (Option ℕ × CoopRank)) (a b : ℤ)
    → IsLadder n rows
    → a ≤ℤ b
    → NotWorse (first_rank rows b) (first_rank rows a)
unfolding first_rank
first_rank_mono n [] a b l h = absurd l
first_rank_mono n ((none, s) ∷ rest) a b l h = omega arith
first_rank_mono n ((some m, s) ∷ rest) a b l h = elim (Bool-cases (leb_ℤ (pos m) a)) [
  | inl e ↦ rw (first_rank, e, reaches_mono (some m) a b h e) (omega arith)
  | inr e ↦ elim (Bool-cases (leb_ℤ (pos m) b)) [
    | inl f ↦ rw (first_rank, e, f) (AtLeast-NotWorse s _ (first_rank-AtLeast (place s) rest a l.1))
    | inr f ↦ rw (first_rank, e, f) (first_rank_mono (place s) rest a b l.1 h)
  ]
]

-- Every score has a rank, and a score that is not smaller has a rank that is not worse.
pub calculate_coop_rank_for_score_mono :
    (a b : ℤ)
    → a ≤ℤ b
    → NotWorse (calculate_coop_rank_for_score b) (calculate_coop_rank_for_score a)
unfolding calculate_coop_rank_for_score
calculate_coop_rank_for_score_mono a b h =
    first_rank_mono 0 coop_min_score_for_rank a b (omega arith) h
