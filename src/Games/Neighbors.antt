-- ===== src/Games/Neighbors.antt =====
-- `get_neighbors_for_game`: the games before and after a game of the same server.
use swat4stats.Base.{
  ℕ, ◌≤◌, ◌<◌, ◌≡◌, ==_iff, ltb→lt, sym, ap, inl, inr, true, Option, none, some, List, [], ◌∷◌, map,
  arith, ◌==◌, if◌then◌else◌, ltb, elem, All, All-map, Bool-cases,
}
use mathlib.Core.Path.{subst}
use swat4stats.Base.Table.{select}
use swat4stats.Models.Game.{Game}

abbrev pub greater : ℕ → Option ℕ → Option ℕ
greater x none = some x
greater x (some y) = if ltb y x then some x else some y

abbrev pub smaller : ℕ → Option ℕ → Option ℕ
smaller x none = some x
smaller x (some y) = if ltb x y then some x else some y

-- `filter(pk__lt=k).order_by("-pk").first()`
unfoldable pub prev : ℕ → List ℕ → Option ℕ
prev k [] = none
prev k (x ∷ xs) = let rest = prev k xs in if ltb x k then greater x rest else rest

-- `filter(pk__gt=k).order_by("pk").first()`
unfoldable pub next : ℕ → List ℕ → Option ℕ
next k [] = none
next k (x ∷ xs) = let rest = next k xs in if ltb k x then smaller x rest else rest

-- The keys of the games of the server, and the keys of the neighbours.
unfoldable pub server_games : Game → List Game → List ℕ
server_games game games =
    map (λ (g : Game). g.pk) (select (λ g. g.server_id == game.server_id) games)

unfoldable pub get_neighbors_for_game : Game → List Game → Option ℕ × Option ℕ
get_neighbors_for_game game games =
    (prev game.pk (server_games game games), next game.pk (server_games game games))

-- The greatest key below `k`, and the smallest above.
abbrev pub IsPrev : ℕ → List ℕ → Option ℕ → Type 0
IsPrev k xs none = All (λ x. k ≤ x) xs
IsPrev k xs (some m) = (m < k) × (elem m xs ≡ true) × All (λ x. x < k → x ≤ m) xs

abbrev pub IsNext : ℕ → List ℕ → Option ℕ → Type 0
IsNext k xs none = All (λ x. x ≤ k) xs
IsNext k xs (some m) = (k < m) × (elem m xs ≡ true) × All (λ x. k < x → m ≤ x) xs

add_below :
    (k x : ℕ) (xs : List ℕ) (o : Option ℕ)
    → IsPrev k xs o
    → IsPrev k (x ∷ xs) (if ltb x k then greater x o else o)
add_below k x xs none h = elim (Bool-cases (ltb x k)) [
  | inl e ↦ rw e (
    ground (arith, e),
    ground arith,
    ((λ _. omega arith), All-map (λ y l m. omega (arith, l, m)) xs h),
  )
  | inr e ↦ rw e (ground (arith, e), h)
]
add_below k x xs (some m) h = elim (Bool-cases (ltb x k)) [
  | inl e ↦ elim (Bool-cases (ltb m x)) [
    | inl f ↦
        rw (e, f)
          (
            ground (arith, e),
            ground arith,
            ((λ _. omega arith), All-map (λ y l n. ground (arith, l n, f)) xs h.2),
          )
    | inr f ↦ rw (e, f) (h.0, ground (arith, h.1), ((λ _. ground (arith, f)), h.2))
  ]
  | inr e ↦ rw e (h.0, ground (arith, h.1), ((λ l. ground (arith, l, e)), h.2))
]

add_above :
    (k x : ℕ) (xs : List ℕ) (o : Option ℕ)
    → IsNext k xs o
    → IsNext k (x ∷ xs) (if ltb k x then smaller x o else o)
add_above k x xs none h = elim (Bool-cases (ltb k x)) [
  | inl e ↦ rw e (
    ground (arith, e),
    ground arith,
    ((λ _. omega arith), All-map (λ y l m. omega (arith, l, m)) xs h),
  )
  | inr e ↦ rw e (ground (arith, e), h)
]
add_above k x xs (some m) h = elim (Bool-cases (ltb k x)) [
  | inl e ↦ elim (Bool-cases (ltb x m)) [
    | inl f ↦
        rw (e, f)
          (
            ground (arith, e),
            ground arith,
            ((λ _. omega arith), All-map (λ y l n. ground (arith, l n, f)) xs h.2),
          )
    | inr f ↦ rw (e, f) (h.0, ground (arith, h.1), ((λ _. ground (arith, f)), h.2))
  ]
  | inr e ↦ rw e (h.0, ground (arith, h.1), ((λ l. ground (arith, l, e)), h.2))
]

prev-IsPrev : (k : ℕ) (xs : List ℕ) → IsPrev k xs (prev k xs)
unfolding prev
prev-IsPrev k [] = tt
prev-IsPrev k (x ∷ xs) = add_below k x xs (prev k xs) (prev-IsPrev k xs)

next-IsNext : (k : ℕ) (xs : List ℕ) → IsNext k xs (next k xs)
unfolding next
next-IsNext k [] = tt
next-IsNext k (x ∷ xs) = add_above k x xs (next k xs) (next-IsNext k xs)

All-elem : (P : ℕ → Type 0) (k : ℕ) (xs : List ℕ) → All P xs → elem k xs ≡ true → P k
All-elem P k [] h e = absurd (ground (arith, e))
All-elem P k (x ∷ xs) h e = elim (Bool-cases (k == x)) [
  | inl q ↦ subst P (sym ((==_iff k x).0 q)) h.0
  | inr q ↦ All-elem P k xs h.1 (rw q at e)
]

next-prev_found :
    (k m : ℕ) (xs : List ℕ) (o : Option ℕ)
    → elem k xs ≡ true
    → IsPrev k xs (some m)
    → IsNext m xs o
    → o ≡ some k
next-prev_found k m xs none e p n = absurd (omega (arith, All-elem _ k xs n e, p.0))
next-prev_found k m xs (some y) e p n =
    let above = All-elem _ k xs n.2 e p.0 in
    let below = All-elem (λ x. x < k → x ≤ m) y xs p.2 n.1 in ap some (between above below n.0)
  where
    between : y ≤ k → (y < k → y ≤ m) → m < y → y ≡ k
    between a b c = elim (Bool-cases (ltb y k)) [
      | inl f ↦ absurd (omega (arith, b (ltb→lt y k f), c))
      | inr f ↦ ground (arith, a, f)
    ]

next-prev : (k m : ℕ) (xs : List ℕ) → elem k xs ≡ true → prev k xs ≡ some m → next m xs ≡ some k
next-prev k m xs e p =
    next-prev_found k m xs (next m xs) e (subst (IsPrev k xs) p (prev-IsPrev k xs))
      (next-IsNext m xs)

-- Where a game is one of its server's and has a previous game, it is the next game of that one.
pub get_neighbors_for_game_back :
    (game other : Game) (games : List Game)
    → elem game.pk (server_games game games) ≡ true
    → other.server_id ≡ game.server_id
    → (get_neighbors_for_game game games).0 ≡ some other.pk
    → (get_neighbors_for_game other games).1 ≡ some game.pk
unfolding get_neighbors_for_game server_games
get_neighbors_for_game_back game other games e s p =
    rw s (next-prev game.pk other.pk (server_games game games) e p)
