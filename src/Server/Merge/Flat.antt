-- ===== src/Server/Merge/Flat.antt =====
-- The references between merged servers stay flat.
use swat4stats.Base.{
  ℕ, ◌≡◌, refl, ap, ◌∙◌, ◌⊎◌, inl, inr, Bool, true, false, ◌&&◌, not, none, some, List, [], ◌∷◌,
  map, arith, ◌==◌, if◌then◌else◌, elem, holds, length, All, All-map, All-map₂,
}
use swat4stats.Base.Table.{count_where, map_congr}
use swat4stats.Base.Keys.{UniqueKeys, keys, elem-keys, UniqueKeys-map}
use swat4stats.Models.Server.{Server}
use swat4stats.Models.Game.{Game}
use swat4stats.Models.Db.{Db}
use swat4stats.GameStats.{denorm}
use swat4stats.Server.Merge.{
  MergeError, with_stats, denorm_game_stats, Result, ok, err, refers, move_games, is_merging,
  mark_merged, move_references, merge_rows, merge_servers,
}
use mathlib.Core.List.{map-map}
use mathlib.Core.Path.{fun_ext}

abbrev pub pk : Server → ℕ
pk s = s.pk

-- What the merge makes of a row, game statistics aside.
abbrev pub merged_row : ℕ → ℕ → List ℕ → Server → Server
merged_row now main_id ids s =
    if is_merging main_id ids s
    then record s { enabled = false; merged_into = some main_id; merged_into_at = some now }
    else if not (s.pk == main_id) && refers s.merged_into ids
    then record s { merged_into = some main_id }
    else s

abbrev pub denormed : List ℕ → List Game → Server → Server
denormed ids games s =
    if elem s.pk ids then with_stats (denorm (λ g. g.server_id == s.pk) games) s else s

module _ (now main_id : ℕ) (ids : List ℕ) where
  mark_point : Server → Server
  mark_point s =
      if is_merging main_id ids s
      then record s { enabled = false; merged_into = some main_id; merged_into_at = some now }
      else s

  moves : Server → Bool
  moves s = not (s.pk == main_id) && refers s.merged_into ids

  -- The keys collected for the second update pick out the rows that it is meant for.
  move_references-map :
      (rows : List Server)
      → UniqueKeys pk rows
      → move_references main_id ids rows
        ≡ map (λ s. if moves s then record s { merged_into = some main_id } else s) rows
  unfolding move_references moves
  move_references-map rows u = map_congr _ _ rows (
      All-map (λ s e. rw e) rows
        (elem-keys pk (λ s. not (s.pk == main_id) && refers s.merged_into ids) rows u))

  merged_point :
      (s : Server)
      → elem main_id ids ≡ false
      → (let t = mark_point s in if moves t then record t { merged_into = some main_id } else t)
        ≡ merged_row now main_id ids s
  unfolding mark_point moves
  merged_point s out = ground (arith, out)

  pub rows_merged :
      (rows : List Server)
      → UniqueKeys pk rows
      → elem main_id ids ≡ false
      → move_references main_id ids (mark_merged now main_id ids rows)
        ≡ map (merged_row now main_id ids) rows
  unfolding mark_merged mark_point
  rows_merged rows u out =
      move_references-map (map mark_point rows)
        (UniqueKeys-map pk pk mark_point rows (λ s. ground arith) u)
      ∙ map-map _ mark_point rows
      ∙ ap (λ f. map f rows) (fun_ext (λ s. merged_point s out))

-- What a merge that went through has done: every check passed, and the updates were made.
pub record IsMerge (now : ℕ) (main : Server) (ids : List ℕ) (db db' : Db) : Type 0 where
  pub root : main.merged_into ≡ none
  pub outside : elem main.pk ids ≡ false
  pub all_merging : count_where (is_merging main.pk ids) db.servers ≡ length ids
  pub games : db'.games ≡ move_games main.pk ids db.games
  pub servers :
      db'.servers
      ≡ denorm_game_stats
          (main.pk ∷ ids)
          db'.games
          (move_references main.pk ids (mark_merged now main.pk ids db.servers))

Result-cases : (r : Result Db) → ((db : Db) × (r ≡ ok db)) ⊎ ((x : MergeError) × (r ≡ err x))
Result-cases (ok db) = inl (db, refl)
Result-cases (err x) = inr (x, refl)

merge_rows-IsMerge :
    (now : ℕ) (main : Server) (ids : List ℕ) (db db₁ : Db)
    → merge_rows now main.pk ids db ≡ ok db₁
    → (count_where (is_merging main.pk ids) db.servers ≡ length ids)
      × (db₁.games ≡ move_games main.pk ids db.games)
      × (db₁.servers ≡ move_references main.pk ids (mark_merged now main.pk ids db.servers))
unfolding merge_rows
merge_rows-IsMerge now main ids db db₁ e = ground arith

pub merge_servers-IsMerge :
    (now : ℕ) (main : Server) (merged : List Server) (db db' : Db)
    → merge_servers now main merged db ≡ ok db'
    → IsMerge now main (keys pk merged) db db'
unfolding merge_servers
merge_servers-IsMerge now main merged db db' e =
    elim (Result-cases (merge_rows now main.pk (keys pk merged) db)) [
      | inr (x, bad) ↦ absurd (ground (arith, bad))
      | inl (db₁, good) ↦
          let (counted, moved, rewritten) =
            merge_rows-IsMerge now main (keys pk merged) db db₁ good in
          record {
            root = ground (arith, good);
            outside = ground (arith, good);
            all_merging = counted;
            games = ground (arith, good, moved);
            servers = ground (arith, good, moved, rewritten);
          }
    ]

-- The in-memory row of the main server agrees with the table on the reference.
abbrev pub IsCurrent : Server → List Server → Type 0
IsCurrent main = All (λ t. t.pk ≡ main.pk → t.merged_into ≡ main.merged_into)

-- A row that some row was merged into is not merged itself.
abbrev pub NoChain : Server → Server → Type 0
NoChain s t = holds s.merged_into t.pk ≡ true → t.merged_into ≡ none

abbrev pub IsFlat : List Server → Type 0
IsFlat rows = All (λ s. All (NoChain s) rows) rows

-- The rows after a merge, each from its own row before it.
abbrev pub after_merge : ℕ → Server → List ℕ → List Game → Server → Server
after_merge now main ids games s = denormed (main.pk ∷ ids) games (merged_row now main.pk ids s)

pub servers-after_merge :
    (now : ℕ) (main : Server) (ids : List ℕ) (db db' : Db)
    → UniqueKeys pk db.servers
    → IsMerge now main ids db db'
    → db'.servers ≡ map (after_merge now main ids db'.games) db.servers
unfolding denorm_game_stats
servers-after_merge now main ids db db' u m =
    m.servers
    ∙ ap (denorm_game_stats (main.pk ∷ ids) db'.games)
        (rows_merged now main.pk ids db.servers u m.outside)
    ∙ map-map (denormed (main.pk ∷ ids) db'.games) (merged_row now main.pk ids) db.servers

pub All-of_map {κ} :
    (P : Server → Type κ) (f : Server → Server) (rows : List Server)
    → All (λ s. P (f s)) rows
    → All P (map f rows)
All-of_map P f [] h = tt
All-of_map P f (s ∷ rows) h = (h.0, All-of_map P f rows h.1)

-- The recalculation leaves these columns alone.
pub merged_into-denormed :
    (ids : List ℕ) (games : List Game) (s : Server)
    → ((denormed ids games s).merged_into ≡ s.merged_into)
      × ((denormed ids games s).pk ≡ s.pk)
      × ((denormed ids games s).enabled ≡ s.enabled)
merged_into-denormed ids games s = ground arith

pub pk-merged_row :
    (now main_id : ℕ) (ids : List ℕ) (s : Server) → (merged_row now main_id ids s).pk ≡ s.pk
pk-merged_row now main_id ids s = ground arith

NoChain-merged_row :
    (now : ℕ) (main : Server) (ids : List ℕ) (s t : Server)
    → main.merged_into ≡ none
    → elem main.pk ids ≡ false
    → (s.pk ≡ main.pk → s.merged_into ≡ main.merged_into)
    → (t.pk ≡ main.pk → t.merged_into ≡ main.merged_into)
    → NoChain s t
    → NoChain (merged_row now main.pk ids s) (merged_row now main.pk ids t)
NoChain-merged_row now main ids s t root out hs ht c h = ground arith

after_merge-NoChain :
    (now : ℕ) (main : Server) (ids : List ℕ) (games : List Game) (s t : Server)
    → NoChain (merged_row now main.pk ids s) (merged_row now main.pk ids t)
    → NoChain (after_merge now main ids games s) (after_merge now main ids games t)
after_merge-NoChain now main ids games s t c =
    let (es, _, _) = merged_into-denormed (main.pk ∷ ids) games (merged_row now main.pk ids s) in
    let (et, kt, _) = merged_into-denormed (main.pk ∷ ids) games (merged_row now main.pk ids t) in
    rw (es, et, kt) c

-- In a table with distinct keys, and where the main server as it was loaded agrees with its row on
-- the server that it is merged into, a merge that goes through keeps flat references flat, also
-- those of servers that were merged earlier into one that is merged now: no server is merged into a
-- server that is itself merged.
pub merge_servers-IsFlat :
    (now : ℕ) (main : Server) (merged : List Server) (db db' : Db)
    → UniqueKeys pk db.servers
    → IsCurrent main db.servers
    → IsFlat db.servers
    → merge_servers now main merged db ≡ ok db'
    → IsFlat db'.servers
merge_servers-IsFlat now main merged db db' u current flat e =
    let m = merge_servers-IsMerge now main merged db db' e in
    let ids = keys pk merged in
    let f = after_merge now main ids db'.games in
    rw (servers-after_merge now main ids db db' u m) (
      All-of_map _ f db.servers (
        All-map₂
          (λ s hs row. All-of_map _ f db.servers (
            All-map₂
              (λ t ht c.
                after_merge-NoChain now main ids db'.games s t
                  (NoChain-merged_row now main ids s t m.root m.outside hs ht c))
              db.servers current row))
          db.servers current flat))
