-- ===== src/Server/Merge.antt =====
-- Merging servers (`merge_servers`, `_merge_servers` of apps/tracker/managers/server.py), with the
-- game statistics of the rows (`update_game_stats_with_game`, `denorm_game_stats`).
pub mod Flat
pub mod Complete
use swat4stats.Base.{
  ℕ, Bool, true, false, ◌&&◌, not, Option, none, some, List, [], ◌∷◌, map, ◌==◌, if◌then◌else◌,
  elem, is_none, length,
}
use swat4stats.Base.Table.{select, update_where, count_where}
use swat4stats.Base.Keys.{keys}
use swat4stats.Models.Server.{Server}
use swat4stats.Models.Game.{Game}
use swat4stats.Models.Db.{Db}
use swat4stats.GameStats.{GameStats, set_first, set_latest, denorm}

abbrev pub stats_of : Server → GameStats
stats_of s = record {
  game_count = s.game_count;
  first_game = s.first_game;
  first_game_played_at = s.first_game_played_at;
  latest_game = s.latest_game;
  latest_game_played_at = s.latest_game_played_at;
}

abbrev pub with_stats : GameStats → Server → Server
with_stats st s = record s {
  game_count = st.game_count;
  first_game = st.first_game;
  first_game_played_at = st.first_game_played_at;
  latest_game = st.latest_game;
  latest_game_played_at = st.latest_game_played_at;
}

-- `update_game_stats_with_game`: two updates of the row of the game's server
unfoldable pub update_game_stats_with_game : Game → List Server → List Server
update_game_stats_with_game game rows =
    let own = λ (s : Server). s.pk == game.server_id in
    update_where own (λ s. with_stats (set_latest game (stats_of s)) s)
      (update_where own (λ s. with_stats (set_first game (stats_of s)) s) rows)

-- `denorm_game_stats`, for the rows with these keys
unfoldable pub denorm_game_stats : List ℕ → List Game → List Server → List Server
denorm_game_stats ids games =
    update_where (λ s. elem s.pk ids) (λ s. with_stats (denorm (λ g. g.server_id == s.pk) games) s)

pub data MergeError : Type 0 where
  merged_main : MergeError
  too_few : MergeError
  into_itself : MergeError
  not_all : MergeError

pub data Result (A : Type 0) : Type 0 where
  ok : A → Result A
  err : MergeError → Result A

infixl 5 ◌>>=◌
abbrev pub ◌>>=◌ : {A B : Type 0} → Result A → (A → Result B) → Result B
ok a >>= f = f a
err e >>= f = err e

-- whether a nullable reference is among the keys
abbrev pub refers : Option ℕ → List ℕ → Bool
refers none ids = false
refers (some k) ids = elem k ids

unfoldable pub move_games : ℕ → List ℕ → List Game → List Game
move_games main_id merged_ids =
    update_where (λ g. not (g.server_id == main_id) && elem g.server_id merged_ids)
      (λ g. record g { server_id = main_id })

-- the rows that are merged now
abbrev pub is_merging : ℕ → List ℕ → Server → Bool
is_merging main_id merged_ids s =
    not (s.pk == main_id) && is_none s.merged_into && elem s.pk merged_ids

unfoldable pub mark_merged : ℕ → ℕ → List ℕ → List Server → List Server
mark_merged now main_id merged_ids =
    update_where (is_merging main_id merged_ids)
      (λ s. record s { enabled = false; merged_into = some main_id; merged_into_at = some now })

-- the rows that were merged before into one of those that are merged now
unfoldable pub move_references : ℕ → List ℕ → List Server → List Server
move_references main_id merged_ids rows =
    let ids =
      keys (λ (s : Server). s.pk)
        (select (λ s. not (s.pk == main_id) && refers s.merged_into merged_ids) rows) in
    update_where (λ s. elem s.pk ids) (λ s. record s { merged_into = some main_id }) rows

-- `_merge_servers`
unfoldable pub merge_rows : ℕ → ℕ → List ℕ → Db → Result Db
merge_rows now main_id merged_ids db =
    let games = move_games main_id merged_ids db.games in
    let affected = count_where (is_merging main_id merged_ids) db.servers in
    if not (affected == length merged_ids)
    then err not_all
    else ok (record db {
      games = games;
      servers = move_references main_id merged_ids (mark_merged now main_id merged_ids db.servers);
    })

-- `merge_servers`: an error leaves no trace, since the transaction is rolled back.
unfoldable pub merge_servers : ℕ → Server → List Server → Db → Result Db
merge_servers now main merged db =
    let merged_ids = keys (λ (s : Server). s.pk) merged in
    if not (is_none main.merged_into)
    then err merged_main
    else if length merged_ids == 0
    then err too_few
    else if elem main.pk merged_ids
    then err into_itself
    else merge_rows now main.pk merged_ids db >>= λ db'.
        ok (record db' { servers = denorm_game_stats (main.pk ∷ merged_ids) db'.games db'.servers })
