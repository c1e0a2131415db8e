-- ===== src/GameStats/Agree.antt =====
-- The incremental updates and the recalculation come to the same.
use swat4stats.Base.{
  ℕ, ◌+◌, ◌≤◌, ◌<◌, ◌≡◌, refl, sym, ◌∙◌, inl, inr, Bool, some, List, [], ◌∷◌, arith, ◌==◌,
  if◌then◌else◌, length, All, Bool-cases,
}
use swat4stats.Base.Table.{select, find?}
use swat4stats.Models.Game.{Game}
use swat4stats.GameStats.{GameStats, no_games, add_game, min_pk, max_pk, aggregate, denorm}

-- The games stand in the order of their keys, each key once.
abbrev pub IsAscending : List Game → Type 0
IsAscending [] = Unit
IsAscending (g ∷ gs) = All (λ h. g.pk < h.pk) gs × IsAscending gs

-- One update for each game that belongs to the row, in the order of the list.
abbrev pub replay : (Game → Bool) → List Game → GameStats → GameStats
replay is_own [] st = st
replay is_own (g ∷ gs) st = replay is_own gs (if is_own g then add_game g st else st)

last_game : Game → List Game → Game
last_game g [] = g
last_game g (h ∷ gs) = last_game h gs

add_all : List Game → GameStats → GameStats
add_all [] st = st
add_all (g ∷ gs) st = add_all gs (add_game g st)

replay-select :
    (p : Game → Bool) (gs : List Game) (st : GameStats) → replay p gs st ≡ add_all (select p gs) st
unfolding add_all
replay-select p [] st = refl
replay-select p (g ∷ gs) st = elim (Bool-cases (p g)) [
  | inl e ↦ rw e (replay-select p gs (add_game g st))
  | inr e ↦ rw e (replay-select p gs st)
]

All-select : (P : Game → Type 0) (p : Game → Bool) (gs : List Game) → All P gs → All P (select p gs)
All-select P p [] h = tt
All-select P p (g ∷ gs) h = elim (Bool-cases (p g)) [
  | inl e ↦ rw e (h.0, All-select P p gs h.1)
  | inr e ↦ rw e (All-select P p gs h.1)
]

IsAscending-select : (p : Game → Bool) (gs : List Game) → IsAscending gs → IsAscending (select p gs)
IsAscending-select p [] h = tt
IsAscending-select p (g ∷ gs) h = elim (Bool-cases (p g)) [
  | inl e ↦ rw e (All-select (λ k. g.pk < k.pk) p gs h.0, IsAscending-select p gs h.1)
  | inr e ↦ rw e (IsAscending-select p gs h.1)
]

-- In an ascending table a game is found by its key.
found_by_key :
    (gs : List Game) → IsAscending gs → All (λ g. find? (λ x. x.pk == g.pk) gs ≡ some g) gs
found_by_key [] h = tt
found_by_key (g ∷ gs) h = (ground arith, later gs h.0 (found_by_key gs h.1))
  where
    later :
        (hs : List Game)
        → All (λ k. g.pk < k.pk) hs
        → All (λ k. find? (λ x. x.pk == k.pk) gs ≡ some k) hs
        → All (λ k. find? (λ x. x.pk == k.pk) (g ∷ gs) ≡ some k) hs
    later [] a b = tt
    later (k ∷ hs) a b = (ground (arith, a.0, b.0), later hs a.1 b.1)

min_pk-head :
    (g : Game) (gs : List Game) → All (λ h. g.pk < h.pk) gs → IsAscending gs → min_pk g gs ≡ g.pk
min_pk-head g [] a h = refl
min_pk-head g (k ∷ gs) a h = omega (arith, a.0, min_pk-head k gs h.0 h.1)

max_pk-last : (g : Game) (gs : List Game) → IsAscending (g ∷ gs) → max_pk g gs ≡ (last_game g gs).pk
unfolding last_game
max_pk-last g [] h = refl
max_pk-last g (k ∷ gs) h = omega (arith, h.0.0, max_pk-last k gs h.1, le-last k gs h.1)
  where
    le-last : (k : Game) (gs : List Game) → IsAscending (k ∷ gs) → k.pk ≤ (last_game k gs).pk
    le-last k [] h = omega arith
    le-last k (l ∷ gs) h = omega (arith, h.0.0, le-last l gs h.1)

All-last : (P : Game → Type 0) (g : Game) (gs : List Game) → All P (g ∷ gs) → P (last_game g gs)
unfolding last_game
All-last P g [] h = h.0
All-last P g (k ∷ gs) h = All-last P k gs h.1

-- The columns after some games, whose latest is `g`.
after_games : ℕ → Game → Game → GameStats
after_games n f g = record {
  game_count = n;
  first_game = some f.pk;
  first_game_played_at = some f.date_finished;
  latest_game = some g.pk;
  latest_game_played_at = some g.date_finished;
}

add_all-last :
    (n : ℕ) (f g : Game) (gs : List Game)
    → IsAscending (g ∷ gs)
    → add_all gs (after_games n f g) ≡ after_games (n + length gs) f (last_game g gs)
unfolding add_all after_games last_game
add_all-last n f g [] h = ground arith
add_all-last n f g (k ∷ gs) h =
    let e : add_game k (after_games n f g) ≡ after_games (n + 1) f k =
      unfold add_game in ground (arith, h.0.0) in
    rw e (rw (add_all-last (n + 1) f k gs h.1) (ground arith))

aggregate-after :
    (games : List Game) (g : Game) (gs : List Game)
    → IsAscending (g ∷ gs)
    → All (λ k. find? (λ x. x.pk == k.pk) games ≡ some k) (g ∷ gs)
    → aggregate games (g ∷ gs) ≡ after_games (1 + length gs) g (last_game g gs)
unfolding aggregate after_games
aggregate-after games g gs h known =
    rw
      (
        min_pk-head g gs h.0 h.1,
        max_pk-last g gs h,
        known.0,
        All-last (λ k. find? (λ x. x.pk == k.pk) games ≡ some k) g gs known,
      )
      (ground arith)

add_all-aggregate :
    (games own : List Game)
    → IsAscending own
    → All (λ k. find? (λ x. x.pk == k.pk) games ≡ some k) own
    → add_all own no_games ≡ aggregate games own
unfolding add_all
add_all-aggregate games [] a k = unfold aggregate in refl
add_all-aggregate games (g ∷ gs) a k =
    let e : add_game g no_games ≡ after_games 1 g g = unfold add_game after_games in ground arith in
    rw e (add_all-last 1 g g gs a ∙ sym (aggregate-after games g gs a k))

-- Over a table of games in the order of their keys, updating a fresh row with each of its games
-- in turn leaves in the row what the recalculation from all games writes.
pub replay-denorm :
    (is_own : Game → Bool) (games : List Game)
    → IsAscending games
    → replay is_own games no_games ≡ denorm is_own games
unfolding denorm
replay-denorm p games h =
    replay-select p games no_games
    ∙ add_all-aggregate games (select p games) (IsAscending-select p games h)
        (All-select _ p games (found_by_key games h))

-- A repeated update with the same game changes nothing.
pub add_game_idem :
    (game : Game) (st : GameStats) → add_game game (add_game game st) ≡ add_game game st
unfolding add_game
add_game_idem game st = ground arith
