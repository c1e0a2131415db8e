-- ===== src/Stats/Kept.antt =====
-- What the rankings of a year keep of the rows.
use swat4stats.Base.{ℕ, ◌≡◌, ◌≢◌, refl, sym, ap, ◌∙◌, false, List, [], ◌∷◌, map, arith, ◌==◌, All}
use swat4stats.Base.Keys.{UniqueKeys}
use swat4stats.Stats.{Stat}
use swat4stats.Stats.Rank.{Query, rank, is_ranked}
use swat4stats.Stats.Order.{pk, ranked, rank-ranked}
use mathlib.Core.Path.{subst}
use swat4stats.Stats.Annual.{
  player_queries, gametype_queries, server_queries, rank_each, update_per_server_positions_for_year,
  Boards, update_player_positions_for_year,
}

-- A row before and after: only the position may change, and only that of a row of the year.
abbrev pub IsKept : ℕ → Stat → Stat → Type 0
IsKept year r s = (record s { position = r.position } ≡ r) × ((r.year == year) ≡ false → s ≡ r)

abbrev pub AreKept : ℕ → List Stat → List Stat → Type 0
AreKept year [] [] = Unit
AreKept year [] (s ∷ ss) = ⊥
AreKept year (r ∷ rs) [] = ⊥
AreKept year (r ∷ rs) (s ∷ ss) = IsKept year r s × AreKept year rs ss

AreKept-refl : (year : ℕ) (rows : List Stat) → AreKept year rows rows
AreKept-refl year [] = tt
AreKept-refl year (r ∷ rs) = ((refl, (λ _. refl)), AreKept-refl year rs)

AreKept-map :
    (year : ℕ) (f : Stat → Stat) (rows : List Stat)
    → ((r : Stat) → IsKept year r (f r))
    → AreKept year rows (map f rows)
AreKept-map year f [] h = tt
AreKept-map year f (r ∷ rs) h = (h r, AreKept-map year f rs h)

IsKept-trans : (year : ℕ) (r s t : Stat) → IsKept year r s → IsKept year s t → IsKept year r t
IsKept-trans year r s t h k = (
  ap (λ (x : Stat). record x { position = r.position }) k.0 ∙ h.0,
  (λ e. k.1 (subst (λ (x : Stat). (x.year == year) ≡ false) (sym (h.1 e)) e) ∙ h.1 e),
)

AreKept-trans :
    (year : ℕ) (rs ss ts : List Stat) → AreKept year rs ss → AreKept year ss ts → AreKept year rs ts
AreKept-trans year [] [] ts h k = k
AreKept-trans year [] (s ∷ ss) ts h k = absurd h
AreKept-trans year (r ∷ rs) [] ts h k = absurd h
AreKept-trans year (r ∷ rs) (s ∷ ss) [] h k = absurd k
AreKept-trans year (r ∷ rs) (s ∷ ss) (t ∷ ts) h k =
    (IsKept-trans year r s t h.0 k.0, AreKept-trans year rs ss ts h.1 k.1)

ranked-IsKept : (q : Query) (rows : List Stat) (r : Stat) → IsKept q.year r (ranked q rows r)
unfolding is_ranked
ranked-IsKept q rows r = (ground arith, (λ e. ground (arith, e)))

UniqueKeys-AreKept_head :
    (year k : ℕ) (rs ss : List Stat)
    → AreKept year rs ss
    → All (λ y. pk y ≢ k) rs
    → All (λ y. pk y ≢ k) ss
UniqueKeys-AreKept_head year k [] [] h u = tt
UniqueKeys-AreKept_head year k [] (s ∷ ss) h u = absurd h
UniqueKeys-AreKept_head year k (r ∷ rs) [] h u = tt
UniqueKeys-AreKept_head year k (r ∷ rs) (s ∷ ss) h u =
    ((λ e. u.0 (sym (ap pk h.0.0) ∙ e)), UniqueKeys-AreKept_head year k rs ss h.1 u.1)

UniqueKeys-AreKept :
    (year : ℕ) (rs ss : List Stat) → AreKept year rs ss → UniqueKeys pk rs → UniqueKeys pk ss
UniqueKeys-AreKept year [] [] h u = tt
UniqueKeys-AreKept year [] (s ∷ ss) h u = absurd h
UniqueKeys-AreKept year (r ∷ rs) [] h u = tt
UniqueKeys-AreKept year (r ∷ rs) (s ∷ ss) h u = (
  subst (λ k. All (λ y. pk y ≢ k) ss) (sym (ap pk h.0.0))
      (UniqueKeys-AreKept_head year (pk r) rs ss h.1 u.0),
  UniqueKeys-AreKept year rs ss h.1 u.1,
)

rank-AreKept :
    (q : Query) (rows : List Stat) → UniqueKeys pk rows → AreKept q.year rows (rank q rows)
rank-AreKept q rows u =
    rw (rank-ranked q rows u) (AreKept-map q.year (ranked q rows) rows (ranked-IsKept q rows))

rank_each-AreKept :
    (year : ℕ) (qs : List Query) (rows : List Stat)
    → All (λ (q : Query). q.year ≡ year) qs
    → UniqueKeys pk rows
    → AreKept year rows (rank_each qs rows)
unfolding rank_each
rank_each-AreKept year [] rows y u = AreKept-refl year rows
rank_each-AreKept year (q ∷ qs) rows y u =
    let h = subst (λ n. AreKept n rows (rank q rows)) y.0 (rank-AreKept q rows u) in
    AreKept-trans year rows (rank q rows) (rank_each qs (rank q rows)) h
      (rank_each-AreKept year qs (rank q rows) y.1 (UniqueKeys-AreKept year rows (rank q rows) h u))

-- Updating the positions of a year keeps every row of the three tables in its place, with its
-- points, and keeps the rows of other years with their positions, where the rows of each table
-- have distinct keys.
pub update_player_positions_for_year-AreKept :
    (year : ℕ) (b : Boards)
    → UniqueKeys pk b.players
    → UniqueKeys pk b.gametypes
    → UniqueKeys pk b.servers
    → let after = update_player_positions_for_year year b in
      AreKept year b.players after.players
      × AreKept year b.gametypes after.gametypes
      × AreKept year b.servers after.servers
unfolding update_player_positions_for_year update_per_server_positions_for_year player_queries
    gametype_queries server_queries
update_player_positions_for_year-AreKept year b u v w = (
  rank_each-AreKept year _ b.players (refl, (refl, (refl, (refl, (refl, (refl, tt)))))) u,
  rank_each-AreKept year _ b.gametypes (refl, (refl, (refl, tt))) v,
  rank_each-AreKept year _ b.servers (refl, (refl, (refl, (refl, tt)))) w,
)
