-- ===== src/Server/Merge/Complete.antt =====
-- A merge that goes through takes every one of the servers: they are disabled, refer to the main
-- server and keep no game, and the main server's row counts all the games.
use swat4stats.Base.{
  ℕ, ◌+◌, ◌≤◌, ◌≡◌, refl, sym, ◌∙◌, ◌≢◌, inl, inr, Bool, true, false, ◌||◌, some, List, [], ◌∷◌,
  arith, ◌==◌, elem, length, All, All-map, Bool-cases,
}
use swat4stats.Base.Table.{select, count_where, length-select}
use swat4stats.Base.Keys.{UniqueKeys, keys}
use swat4stats.Models.Server.{Server}
use swat4stats.Models.Game.{Game}
use swat4stats.Models.Db.{Db}
use swat4stats.GameStats.{aggregate, denorm}
use swat4stats.Server.Merge.{ok, move_games, is_merging, merge_servers}
use swat4stats.Server.Merge.Flat.{
  pk, merged_row, denormed, merged_into-denormed, pk-merged_row, merge_servers-IsMerge, after_merge,
  servers-after_merge, All-of_map,
}

-- Of rows with distinct keys at most one has a given key.
count-key_absent :
    (k : ℕ) (rows : List Server) → All (λ s. s.pk ≢ k) rows → count_where (λ s. s.pk == k) rows ≡ 0
count-key_absent k [] h = refl
count-key_absent k (s ∷ rows) h = ground (arith, h.0, count-key_absent k rows h.1)

count-key-le :
    (k : ℕ) (rows : List Server) → UniqueKeys pk rows → count_where (λ s. s.pk == k) rows ≤ 1
count-key-le k [] u = omega arith
count-key-le k (s ∷ rows) u = elim (Bool-cases (s.pk == k)) [
  | inl e ↦
      let same : s.pk ≡ k = ground arith in ground (arith, count-key_absent k rows (rw same at u.0))
  | inr e ↦ ground (arith, count-key-le k rows u.1)
]

count-or-le :
    (p q : Server → Bool) (rows : List Server)
    → count_where (λ s. p s || q s) rows ≤ count_where p rows + count_where q rows
count-or-le p q [] = omega arith
count-or-le p q (s ∷ rows) = ground (arith, count-or-le p q rows)

count-elem-le :
    (ids : List ℕ) (rows : List Server)
    → UniqueKeys pk rows
    → count_where (λ s. elem s.pk ids) rows ≤ length ids
count-elem-le [] rows u = none_counted rows
  where
    none_counted : (rows : List Server) → count_where (λ s. false) rows ≤ 0
    none_counted [] = omega arith
    none_counted (s ∷ rows) = omega (arith, none_counted rows)
count-elem-le (k ∷ ids) rows u = omega (
  arith,
  count-or-le (λ s. s.pk == k) (λ s. elem s.pk ids) rows,
  count-key-le k rows u,
  count-elem-le ids rows u,
)

-- If a narrower test counts no fewer rows, then it takes every row that the wider one takes.
count-le :
    (p q : Server → Bool) (rows : List Server)
    → ((s : Server) → p s ≡ true → q s ≡ true)
    → count_where p rows ≤ count_where q rows
count-le p q [] h = omega arith
count-le p q (s ∷ rows) h = ground (arith, h s, count-le p q rows h)

count-eq_all :
    (p q : Server → Bool) (rows : List Server)
    → ((s : Server) → p s ≡ true → q s ≡ true)
    → count_where q rows ≤ count_where p rows
    → All (λ s. q s ≡ true → p s ≡ true) rows
count-eq_all p q [] h le = tt
count-eq_all p q (s ∷ rows) h le =
    ((λ e. ground (arith, h s, count-le p q rows h)), count-eq_all p q rows h (ground (arith, h s)))

all_merging :
    (main : Server) (ids : List ℕ) (rows : List Server)
    → UniqueKeys pk rows
    → count_where (is_merging main.pk ids) rows ≡ length ids
    → All (λ s. elem s.pk ids ≡ true → is_merging main.pk ids s ≡ true) rows
all_merging main ids rows u e =
    count-eq_all (is_merging main.pk ids) (λ s. elem s.pk ids) rows (λ s h. ground arith)
      (omega (arith, count-elem-le ids rows u))

-- A server of the merge, after it.
abbrev Absorbed : Server → Server → Type 0
Absorbed main s = (s.merged_into ≡ some main.pk) × (s.enabled ≡ false)

merged_row-Absorbed :
    (now : ℕ) (main : Server) (ids : List ℕ) (s : Server)
    → is_merging main.pk ids s ≡ true
    → let r = merged_row now main.pk ids s in (r.merged_into ≡ some main.pk) × (r.enabled ≡ false)
merged_row-Absorbed now main ids s e = (rw e, rw e)

after_merge-Absorbed :
    (now : ℕ) (main : Server) (ids : List ℕ) (games : List Game) (s : Server)
    → (elem s.pk ids ≡ true → is_merging main.pk ids s ≡ true)
    → elem (after_merge now main ids games s).pk ids ≡ true
    → Absorbed main (after_merge now main ids games s)
after_merge-Absorbed now main ids games s h e =
    let r = merged_row now main.pk ids s in
    let (reference, key, on) = merged_into-denormed (main.pk ∷ ids) games r in
    let (merged, off) =
      merged_row-Absorbed now main ids s (h (rw (key ∙ pk-merged_row now main.pk ids s) at e)) in
    (reference ∙ merged, on ∙ off)

games_moved :
    (main_id : ℕ) (ids : List ℕ) (games : List Game)
    → elem main_id ids ≡ false
    → All (λ g. elem g.server_id ids ≡ false) (move_games main_id ids games)
unfolding move_games
games_moved main_id ids [] out = tt
games_moved main_id ids (g ∷ games) out = (ground (arith, out), games_moved main_id ids games out)

count-moved :
    (main_id : ℕ) (ids : List ℕ) (games : List Game)
    → count_where (λ g. g.server_id == main_id) (move_games main_id ids games)
      ≡ count_where (λ g. g.server_id == main_id || elem g.server_id ids) games
unfolding move_games
count-moved main_id ids [] = refl
count-moved main_id ids (g ∷ games) = ground (arith, count-moved main_id ids games)

game_count-denorm :
    (p : Game → Bool) (games : List Game) → (denorm p games).game_count ≡ count_where p games
unfolding denorm
game_count-denorm p games = go (select p games) ∙ length-select p games
  where
    go : (own : List Game) → (aggregate games own).game_count ≡ length own
    go [] = refl
    go (g ∷ own) = refl

denormed-game_count :
    (k : ℕ) (ids : List ℕ) (games : List Game) (r : Server)
    → r.pk ≡ k
    → (denormed (k ∷ ids) games r).game_count ≡ count_where (λ g. g.server_id == k) games
denormed-game_count k ids games r e =
    let counted = game_count-denorm (λ g. g.server_id == r.pk) games in
    ground (arith, rw e at counted)

after_merge-game_count :
    (now : ℕ) (main : Server) (ids : List ℕ) (games : List Game) (s : Server)
    → (after_merge now main ids games s).pk ≡ main.pk
    → (after_merge now main ids games s).game_count
      ≡ count_where (λ g. g.server_id == main.pk) games
after_merge-game_count now main ids games s e =
    let r = merged_row now main.pk ids s in
    let (_, key, _) = merged_into-denormed (main.pk ∷ ids) games r in
    denormed-game_count main.pk ids games r (sym key ∙ e)

everywhere : {P : Server → Type 0} (rows : List Server) → ((s : Server) → P s) → All P rows
everywhere [] h = tt
everywhere (s ∷ rows) h = (h s, everywhere rows h)

-- After a merge that went through, over rows with distinct keys: every merged server is disabled
-- and refers to the main one, no game belongs to a merged server, the games of the main server are
-- those that were its own or a merged server's, and its row counts them.
pub merge_servers_complete :
    (now : ℕ) (main : Server) (merged : List Server) (db db' : Db)
    → UniqueKeys pk db.servers
    → merge_servers now main merged db ≡ ok db'
    → let ids = keys pk merged in
      All
        (λ s. elem s.pk ids ≡ true → (s.merged_into ≡ some main.pk) × (s.enabled ≡ false))
        db'.servers
      × All (λ g. elem g.server_id ids ≡ false) db'.games
      × (count_where (λ g. g.server_id == main.pk) db'.games
          ≡ count_where (λ g. g.server_id == main.pk || elem g.server_id ids) db.games)
      × All
          (λ s. s.pk ≡ main.pk → s.game_count ≡ count_where (λ g. g.server_id == main.pk) db'.games)
          db'.servers
merge_servers_complete now main merged db db' u e =
    let m = merge_servers-IsMerge now main merged db db' e in
    let ids = keys pk merged in
    let f = after_merge now main ids db'.games in
    let rewritten = servers-after_merge now main ids db db' u m in
    (
      rw rewritten (
          All-of_map _ f db.servers (
            All-map (λ s h. after_merge-Absorbed now main ids db'.games s h) db.servers
              (all_merging main ids db.servers u m.all_merging))),
      rw m.games (games_moved main.pk ids db.games m.outside),
      rw m.games (count-moved main.pk ids db.games),
      rw rewritten (
          All-of_map _ f db.servers
            (everywhere db.servers λ s. after_merge-game_count now main ids db'.games s)),
    )
