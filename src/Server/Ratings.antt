-- ===== src/Server/Ratings.antt =====
-- Ratings of servers: `update_ratings` and `_get_servers_with_rating` of
-- apps/tracker/managers/server.py, which the task `update_server_ratings` calls. The replica that
-- the code reads from is taken to agree with the tables.
pub mod Laws
use swat4stats.Base.{
  ℕ, ◌+◌, ◌*◌, Bool, ◌&&◌, ◌||◌, Option, none, some, List, [], ◌∷◌, map, ltb, leb, ◌==◌,
  if◌then◌else◌, elem,
}
use swat4stats.Base.Text.{Text, text_eq}
use swat4stats.Base.Order.{text_ltb}
use swat4stats.Base.Table.{select, update_where, count_where}
use swat4stats.Base.Keys.{keys, lookup}
use swat4stats.Base.Sort.{sorted}
use swat4stats.Base.Enumerate.{enumerate}
use swat4stats.Models.Db.{Db}
use swat4stats.Models.Game.{Game}
use swat4stats.Models.Server.{Server}

-- `settings.TRACKER_SERVER_RATINGS_FOR_PERIOD`
abbrev pub ratings_for_period : ℕ
ratings_for_period = 90 * 24 * 60 * 60

-- `date_finished__gte=finished_since`
abbrev pub is_recent : ℕ → Game → Bool
is_recent now g = leb now (g.date_finished + ratings_for_period)

-- `.values("server").annotate(game_cnt=Count("pk"))`: each server of a game once, with its count
unfoldable pub group_counts : List ℕ → List Game → List Game → List (ℕ × ℕ)
group_counts seen all [] = []
group_counts seen all (g ∷ games) =
    if elem g.server_id seen
    then group_counts seen all games
    else (g.server_id, count_where (λ h. h.server_id == g.server_id) all)
      ∷ group_counts (g.server_id ∷ seen) all games

-- `game_count_per_server_id`
unfoldable pub game_count_per_server_id : ℕ → List Game → List (ℕ × ℕ)
unfolding group_counts
game_count_per_server_id now games =
    let recent = select (is_recent now) games in group_counts [] recent recent

-- `d[k]`, where the key is known to be there
abbrev pub at_key : ℕ → List (ℕ × ℕ) → ℕ
at_key k d = elim (lookup (λ i. i) k d) [ none ↦ 0 | some n ↦ n ]

-- `s.hostname or ""`
abbrev pub or_empty : Option Text → Text
or_empty none = []
or_empty (some h) = h

-- The order of the tuples `(-count, hostname or "", pk)`, for any count of games.
unfoldable pub rated_before : (Server → ℕ) → Server → Server → Bool
rated_before count s t =
    ltb (count t) (count s)
    || count t == count s
      && (text_ltb (or_empty s.hostname) (or_empty t.hostname)
          || text_eq (or_empty s.hostname) (or_empty t.hostname) && ltb s.pk t.pk)

-- `_get_servers_with_rating`; the dictionary is by the server's key
unfoldable pub get_servers_with_rating : ℕ → Db → List (Server × ℕ)
unfolding game_count_per_server_id rated_before sorted enumerate
get_servers_with_rating now db =
    let counts = game_count_per_server_id now db.games in
    let servers_with_rating = select (λ s. elem s.pk (map (λ (k, n). k) counts)) db.servers in
    enumerate 1 (sorted (rated_before (λ s. at_key s.pk counts)) servers_with_rating)

-- `update_ratings` on the whole table
unfoldable pub update_ratings : ℕ → Db → Db
unfolding get_servers_with_rating
update_ratings now db =
    let servers_with_rating = get_servers_with_rating now db in
    let rated =
      map
        (λ (s : Server). record s {
          rating = lookup (λ (r : Server). r.pk) s.pk servers_with_rating;
        })
        db.servers in
    record db { servers = map (λ (s : Server). record s { rating_updated_at = some now }) rated }
