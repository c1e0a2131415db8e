-- ===== src/Reports/Settled.antt =====
-- The statistics of servers and maps stay in step with the games while reports come in.
use swat4stats.Base.{
  ℕ, ◌<◌, ◌≡◌, refl, sym, ap, ◌∙◌, Bool, List, [], ◌∷◌, ◌++◌, map, arith, ◌==◌, if◌then◌else◌, All,
  All-append, All-map,
}
use swat4stats.Models.Game.{Game}
use swat4stats.GameStats.{GameStats, no_games, add_game, denorm}
use swat4stats.GameStats.Agree.{IsAscending, replay, replay-denorm}
use swat4stats.Reports.{GameData, GameRow, Tables}
use swat4stats.Reports.Create.{Processed, sent, skipped, retried, process_game_data}
use swat4stats.Reports.Saved.{IsSaved, create_game-IsSaved, processed-sent}
use swat4stats.Reports.Receive.{
  World, played, update_at, delay_game_related_stats_tasks, update_profile_games,
  update_server_games, update_map_games, settle, Arrival, receive, receive_all,
}

abbrev pub games_of : World → List Game
games_of w = map played w.tables.games

-- The games stand in the order of their keys, which are below the next one, and the statistics of
-- each server and each map are what a recalculation from the games gives.
pub record IsSettled (w : World) : Type 0 where
  pub ascending : IsAscending (games_of w)
  pub below : All (λ g. g.pk < w.tables.next_game) (games_of w)
  pub servers : (k : ℕ) → w.servers k ≡ denorm (λ g. g.server_id == k) (games_of w)
  pub maps : (k : ℕ) → w.maps k ≡ denorm (λ g. g.map_id == k) (games_of w)

IsAscending-last :
    (gs : List Game) (g : Game)
    → IsAscending gs
    → All (λ h. h.pk < g.pk) gs
    → IsAscending (gs ++ g ∷ [])
IsAscending-last [] g a b = (tt, tt)
IsAscending-last (h ∷ gs) g a b =
    (All-append _ gs (g ∷ []) a.0 (b.0, tt), IsAscending-last gs g a.1 b.1)

replay-last :
    (is_own : Game → Bool) (gs : List Game) (g : Game) (st : GameStats)
    → replay is_own (gs ++ g ∷ []) st
      ≡ (if is_own g then add_game g (replay is_own gs st) else replay is_own gs st)
replay-last is_own [] g st = refl
replay-last is_own (h ∷ gs) g st = replay-last is_own gs g (if is_own h then add_game h st else st)

-- The recalculation with a new game is the update with it.
denorm-last :
    (is_own : Game → Bool) (gs : List Game) (g : Game)
    → IsAscending gs
    → All (λ h. h.pk < g.pk) gs
    → denorm is_own (gs ++ g ∷ [])
      ≡ (if is_own g then add_game g (denorm is_own gs) else denorm is_own gs)
denorm-last is_own gs g a b =
    sym (replay-denorm is_own (gs ++ g ∷ []) (IsAscending-last gs g a b))
    ∙ replay-last is_own gs g no_games
    ∙ ap (λ st. if is_own g then add_game g st else st) (replay-denorm is_own gs a)

column-last :
    (key : Game → ℕ) (column : ℕ → GameStats) (gs : List Game) (g : Game)
    → IsAscending gs
    → All (λ h. h.pk < g.pk) gs
    → ((k : ℕ) → column k ≡ denorm (λ h. key h == k) gs)
    → (k : ℕ) → update_at (key g) (add_game g) column k ≡ denorm (λ h. key h == k) (gs ++ g ∷ [])
column-last key column gs g a b h k =
    ap (λ st. if key g == k then add_game g st else st) (h k)
    ∙ sym (denorm-last (λ h. key h == k) gs g a b)

map-played :
    (gs : List GameRow) (g : GameRow) → map played (gs ++ g ∷ []) ≡ map played gs ++ played g ∷ []
map-played [] g = refl
map-played (h ∷ gs) g = ap (λ rest. played h ∷ rest) (map-played gs g)

-- The tasks after a saved report.
tasks-IsSettled :
    (d : GameData) (g : GameRow) (w : World) (after : Tables)
    → IsSettled w
    → IsSaved d g w.tables after
    → IsSettled (delay_game_related_stats_tasks (played g) (record w { tables = after }))
unfolding delay_game_related_stats_tasks update_profile_games update_server_games update_map_games
tasks-IsSettled d g w after h saved =
    let b : All (λ x. x.pk < g.pk) (games_of w) = rw saved.pk h.below in
    let e : map played after.games ≡ games_of w ++ played g ∷ [] =
      ap (map played) saved.games ∙ map-played w.tables.games g in
    record {
      ascending = rw e (IsAscending-last (games_of w) (played g) h.ascending b);
      below =
          rw (e, saved.next_game)
            (All-append _ (games_of w) (played g ∷ [])
              (All-map (λ x l. omega (arith, l)) (games_of w) h.below)
              (omega (arith, saved.pk), tt));
      servers = λ k. rw e (
          column-last (λ x. x.server_id) w.servers (games_of w) (played g) h.ascending b h.servers
            k);
      maps = λ k.
          rw e (column-last (λ x. x.map_id) w.maps (games_of w) (played g) h.ascending b h.maps k);
    }

settle-IsSettled :
    (a : Arrival) (w : World) (r : Processed)
    → IsSettled w
    → process_game_data a.out a.server a.report a.received w.tables ≡ r
    → IsSettled (settle r w)
unfolding settle process_game_data
settle-IsSettled a w (sent g after) h e = tasks-IsSettled a.report g w after h (
    create_game-IsSaved a.out a.server a.report a.received w.tables g after
      (processed-sent _ g after e))
settle-IsSettled a w skipped h e = h
settle-IsSettled a w (retried error) h e = h

-- If the games stand in the order of their keys, below the next key, and the statistics of each
-- server and each map are what a recalculation from all games gives, then the same holds after any
-- reports, whether they are saved, skipped or retried.
pub receive_all-IsSettled :
    (arrivals : List Arrival) (w : World) → IsSettled w → IsSettled (receive_all arrivals w)
unfolding receive
receive_all-IsSettled [] w h = h
receive_all-IsSettled (a ∷ arrivals) w h =
    receive_all-IsSettled arrivals (receive a w) (settle-IsSettled a w _ h refl)
