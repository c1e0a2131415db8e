-- ===== src/Server/Ratings/Laws.antt =====
-- What the ratings are: the places of the servers that have played of late.
use swat4stats.Base.{
  ℕ, ◌+◌, ◌≡◌, ◌≢◌, refl, ap, ◌∙◌, Bool, true, false, ◌&&◌, Option, none, some, List, [], ◌∷◌, map,
  arith, ltb, ◌==◌, ==_iff, is_some, if◌then◌else◌, elem, All, All-all, All-map, All-map₂,
  Bool-cases, inl, inr,
}
use mathlib.Core.List.{map-map}
use swat4stats.Base.Text.{text_eq}
use swat4stats.Base.Order.{text_ltb, text_ltb_asym, text_ltb_cotrans, text_ltb_total}
use swat4stats.Base.Table.{select, All-select, select_congr, exists, count_where, map_congr}
use swat4stats.Base.Keys.{UniqueKeys, UniqueKeys-select, elem-keys, lookup}
use swat4stats.Base.Sort.{sorted}
use swat4stats.Base.Enumerate.{enumerate, lookup-enumerate-sorted, elem-enumerate-sorted}
use swat4stats.Models.Db.{Db}
use swat4stats.Models.Game.{Game}
use swat4stats.Models.Server.{Server}
use swat4stats.Server.Ratings.{
  is_recent, group_counts, game_count_per_server_id, at_key, or_empty, rated_before,
  get_servers_with_rating, update_ratings,
}

module _ (count : Server → ℕ) where
  rated_before_asym :
      (s t : Server) → rated_before count s t ≡ true → rated_before count t s ≡ false
  unfolding rated_before
  rated_before_asym s t h =
      let a = or_empty s.hostname in
      let b = or_empty t.hostname in
      ground (arith, text_ltb_asym a b, text_ltb_asym b a, text_ltb_total a b, text_ltb_total b a)

  rated_before_total :
      (s t : Server) → t.pk ≢ s.pk → rated_before count t s ≡ false → rated_before count s t ≡ true
  unfolding rated_before
  rated_before_total s t d h =
      let a = or_empty s.hostname in
      let b = or_empty t.hostname in ground (arith, text_ltb_total a b, text_ltb_total b a)

  rated_before_cotrans :
      (s t u : Server)
      → rated_before count s t ≡ false
      → rated_before count t u ≡ false
      → rated_before count s u ≡ false
  unfolding rated_before
  rated_before_cotrans s t u h k =
      let a = or_empty s.hostname in
      let b = or_empty t.hostname in
      let c = or_empty u.hostname in
      ground (
        arith,
        text_ltb_cotrans a b c,
        text_ltb_cotrans c a b,
        text_ltb_cotrans b c a,
        text_ltb_total a b,
        text_ltb_total b c,
        text_ltb_total a c,
      )

-- More games; of as many games the smaller hostname, where a missing one counts as empty; and of
-- the same hostname the smaller key.
abbrev pub beats : (Server → ℕ) → Server → Server → Bool
beats count t s =
    if count t == count s
    then if text_eq (or_empty t.hostname) (or_empty s.hostname)
      then ltb t.pk s.pk
      else text_ltb (or_empty t.hostname) (or_empty s.hostname)
    else ltb (count s) (count t)

rated_before-beats : (count : Server → ℕ) (t s : Server) → rated_before count t s ≡ beats count t s
unfolding rated_before
rated_before-beats count t s =
    let a = or_empty t.hostname in
    let b = or_empty s.hostname in ground (arith, text_ltb_asym a b, text_ltb_total a b)

-- The number of recent games of a server.
abbrev pub recent_games : ℕ → Db → Server → ℕ
recent_games now db s = count_where (λ g. is_recent now g && g.server_id == s.pk) db.games

lookup-group_counts :
    (seen : List ℕ) (k : ℕ) (all games : List Game)
    → lookup (λ i. i) k (group_counts seen all games) ≡ (
        if elem k seen
        then none
        else if exists (λ g. g.server_id == k) games
        then some (count_where (λ g. g.server_id == k) all)
        else none)
unfolding group_counts
lookup-group_counts seen k all [] = ground arith
lookup-group_counts seen k all (g ∷ games) = elim (Bool-cases (g.server_id == k)) [
  | inl e ↦
      let same : g.server_id ≡ k = (==_iff g.server_id k).0 e in
      let counted = ap (λ i. count_where (λ (h : Game). h.server_id == i) all) same in
      ground (
        arith,
        counted,
        ap (λ i. elem i seen) same,
        lookup-group_counts seen k all games,
        lookup-group_counts (g.server_id ∷ seen) k all games,
      )
  | inr e ↦ ground (
    arith,
    e,
    lookup-group_counts seen k all games,
    lookup-group_counts (g.server_id ∷ seen) k all games,
  )
]

exists-select :
    (p : Game → Bool) (k : ℕ) (games : List Game)
    → exists (λ g. g.server_id == k) (select p games)
      ≡ ltb 0 (count_where (λ g. p g && g.server_id == k) games)
exists-select p k [] = refl
exists-select p k (g ∷ games) = ground (arith, exists-select p k games)

count-select :
    (p : Game → Bool) (k : ℕ) (games : List Game)
    → count_where (λ g. g.server_id == k) (select p games)
      ≡ count_where (λ g. p g && g.server_id == k) games
count-select p k [] = refl
count-select p k (g ∷ games) = ground (arith, count-select p k games)

elem-lookup :
    (k : ℕ) (d : List (ℕ × ℕ)) → elem k (map (λ (i, n). i) d) ≡ is_some (lookup (λ i. i) k d)
elem-lookup k [] = refl
elem-lookup k ((i, n) ∷ d) = ground (arith, elem-lookup k d)

is_some-false : {A : Type 0} (o : Option A) → is_some o ≡ false → o ≡ none
is_some-false none e = refl
is_some-false (some a) e = absurd (ground arith)

module _ (now : ℕ) (db : Db) where
  -- What the dictionary of counts says of a server.
  lookup-counts :
      (s : Server)
      → lookup (λ i. i) s.pk (game_count_per_server_id now db.games)
        ≡ (if ltb 0 (recent_games now db s) then some (recent_games now db s) else none)
  unfolding game_count_per_server_id
  lookup-counts s =
      let recent = select (is_recent now) db.games in
      lookup-group_counts [] s.pk recent recent
      ∙ rw (exists-select (is_recent now) s.pk db.games, count-select (is_recent now) s.pk db.games)
          refl

  at_key-counts :
      (s : Server) → at_key s.pk (game_count_per_server_id now db.games) ≡ recent_games now db s
  at_key-counts s = rw (lookup-counts s, at_key) (ground arith)

  elem-counts :
      (s : Server)
      → elem s.pk (map (λ (k, n). k) (game_count_per_server_id now db.games))
        ≡ ltb 0 (recent_games now db s)
  elem-counts s =
      elem-lookup s.pk (game_count_per_server_id now db.games) ∙ rw (lookup-counts s) (ground arith)

  abbrev played : Server → Bool
  played s = ltb 0 (recent_games now db s)

  -- The servers with recent games that stand before one.
  abbrev pub better : Server → ℕ
  better s =
      count_where (λ t. ltb 0 (recent_games now db t) && beats (recent_games now db) t s) db.servers

  -- The row after the update.
  abbrev pub rated : Server → Server
  rated s = record s {
    rating = if ltb 0 (recent_games now db s) then some (1 + better s) else none;
    rating_updated_at = some now;
  }

  count-rated :
      (s : Server) (rows : List Server)
      → count_where (λ t. rated_before (recent_games now db) t s) (select played rows)
        ≡ count_where (λ t. played t && beats (recent_games now db) t s) rows
  count-rated s [] = refl
  count-rated s (t ∷ rows) =
      ground (arith, rated_before-beats (recent_games now db) t s, count-rated s rows)

  -- The code's order and selection are the ones by the number of recent games.
  with_rating :
      get_servers_with_rating now db
      ≡ enumerate 1 (sorted (rated_before (recent_games now db)) (select played db.servers))
  unfolding get_servers_with_rating
  with_rating =
      let d = game_count_per_server_id now db.games in
      let order : (λ s. at_key s.pk d) ≡ recent_games now db = λ i s. at_key-counts s i in
      let rows : select (λ (s : Server). elem s.pk (map (λ (k, n). k) d)) db.servers
          ≡ select played db.servers =
        select_congr _ _ db.servers (All-all _ elem-counts db.servers) in
      rw (order, rows) refl

  abbrev lookup_rating : Server → Option ℕ
  lookup_rating s =
      lookup (λ (r : Server). r.pk) s.pk
        (enumerate 1 (sorted (rated_before (recent_games now db)) (select played db.servers)))

  lookup_rating-played :
      UniqueKeys (λ s. s.pk) db.servers
      → All (λ s. played s ≡ true → lookup_rating s ≡ some (1 + better s)) db.servers
  lookup_rating-played u = All-select _ played db.servers (
      All-map (λ s h. h ∙ ap (λ c. some (1 + c)) (count-rated s db.servers)) _
        (lookup-enumerate-sorted (rated_before (recent_games now db)) (λ s. s.pk)
          (rated_before_asym (recent_games now db)) (rated_before_cotrans (recent_games now db))
          (rated_before_total (recent_games now db)) (select played db.servers) 1
          (UniqueKeys-select (λ s. s.pk) played db.servers u)))

  lookup_rating-idle :
      UniqueKeys (λ s. s.pk) db.servers → All (λ s. is_some (lookup_rating s) ≡ played s) db.servers
  lookup_rating-idle u =
      All-map
        (λ s h.
          elem-enumerate-sorted (rated_before (recent_games now db)) (λ r. r.pk) s.pk 1
            (select played db.servers)
          ∙ h)
        db.servers (elem-keys (λ s. s.pk) played db.servers u)

  lookup_rating-rated :
      (s : Server)
      → (played s ≡ true → lookup_rating s ≡ some (1 + better s))
      → is_some (lookup_rating s) ≡ played s
      → lookup_rating s ≡ (if played s then some (1 + better s) else none)
  lookup_rating-rated s a b = elim (Bool-cases (played s)) [
    | inl e ↦ rw e (a e)
    | inr e ↦ rw e (is_some-false _ (b ∙ e))
  ]

  rated_row :
      (s : Server)
      → lookup_rating s ≡ (if played s then some (1 + better s) else none)
      → record s { rating = lookup_rating s; rating_updated_at = some now } ≡ rated s
  rated_row s e = ap (λ r. record s { rating = r; rating_updated_at = some now }) e

  -- In a table with distinct keys the update rates exactly the servers with a game in the last 90
  -- days, each with one plus the number of servers that had more such games, or as many and a
  -- smaller hostname, where a missing one counts as empty, or the same hostname and a smaller key.
  -- All rows get the moment of the update and keep the rest.
  pub update_ratings-rated :
      UniqueKeys (λ s. s.pk) db.servers
      → update_ratings now db ≡ record db { servers = map rated db.servers }
  unfolding update_ratings
  update_ratings-rated u =
      ap (λ rows. record db { servers = rows })
        (map-map _ _ db.servers
          ∙ map_congr _ _ db.servers (
              All-map₂ (λ s a b. rw with_rating (rated_row s (lookup_rating-rated s a b)))
                db.servers (lookup_rating-played u) (lookup_rating-idle u)))
