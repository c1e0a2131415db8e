-- ===== src/Reports/Saved.antt =====
-- What a saved report leaves in the tables, and what a repeated one does.
use mathlib.Core.Path.{subst}
use swat4stats.Base.{
  sym, ◌+◌, ℕ, ◌≡◌, refl, ap, ◌∙◌, Bool, true, false, List, [], ◌∷◌, ◌++◌, length, All, Bool-cases,
  inl, inr,
}
use swat4stats.Base.Text.{text_eq, text_eq_refl}
use swat4stats.Base.Table.{exists, exists-last}
use swat4stats.Reports.{GameData, GameRow, PlayerRow, Tables, Outside}
use swat4stats.Reports.Attempts.{
  Error, already_saved, bind-from, bind-failed, Attempt, made, failed, bind-made, made-injective,
}
use swat4stats.Reports.Parts.{obtain_for}
use swat4stats.Reports.Create.{
  processed, insert_game, save_game, game_row, create_game, sent, skipped, process_game_data,
}
use swat4stats.Entities.Modes.{is_coop}
use swat4stats.Reports.Players.{or_empty}
use swat4stats.Reports.Counted.{create_parts-HasPlayers}
use swat4stats.Reports.Kept.{IsKept, obtain_for-IsKept}

insert_game-made :
    (g : GameRow) (db after : Tables)
    → insert_game g db ≡ made after
    → (exists (λ (h : GameRow). text_eq h.tag g.tag) db.games ≡ false)
      × (after.games ≡ db.games ++ g ∷ [])
      × (after.players ≡ db.players)
      × (after.next_game ≡ db.next_game + 1)
unfolding insert_game
insert_game-made g db after h =
    elim (Bool-cases (exists (λ (h : GameRow). text_eq h.tag g.tag) db.games)) [
      | inl e ↦ cc (rw e at h)
      | inr e ↦
          subst
            (λ t.
              (exists (λ (h : GameRow). text_eq h.tag g.tag) db.games ≡ false)
              × (t.games ≡ db.games ++ g ∷ [])
              × (t.players ≡ db.players)
              × (t.next_game ≡ db.next_game + 1))
            (made-injective _ after (rw e at h)) (e, refl, refl, refl)
    ]

-- The row is new and has the report's tag and the next key, and the players are those of the report.
pub record IsSaved (d : GameData) (g : GameRow) (db after : Tables) : Type 0 where
  pub tag : g.tag ≡ d.tag
  pub pk : g.pk ≡ db.next_game
  pub next_game : after.next_game ≡ db.next_game + 1
  pub fresh : exists (λ (h : GameRow). text_eq h.tag d.tag) db.games ≡ false
  pub games : after.games ≡ db.games ++ g ∷ []
  pub new : List PlayerRow
  pub players : after.players ≡ db.players ++ new
  pub number : length new ≡ length (or_empty d.players)
  pub theirs : All (λ r. r.player.game ≡ g.pk) new

save_game-IsSaved :
    (out : Outside) (coop : Bool) (d : GameData) (row : GameRow) (db : Tables) (g : GameRow)
    (after : Tables)
    → row.tag ≡ d.tag
    → row.pk ≡ db.next_game
    → save_game out coop d row db ≡ made (g, after)
    → IsSaved d g db after
unfolding save_game
save_game-IsSaved out coop d row db g after tag pk h =
    let (t, i, h1) = bind-made _ _ h in
    let (u, p, h2) = bind-made _ _ h1 in
    let (fresh, games, players, next_game) = insert_game-made row db t i in
    let saved = create_parts-HasPlayers out row.pk coop d t u p in
    subst (λ q. IsSaved d q.0 db q.1) (made-injective _ _ h2)
      (record {
        tag = tag;
        pk = pk;
        next_game = saved.next_game ∙ next_game;
        fresh = subst (λ x. exists (λ (h : GameRow). text_eq h.tag x) db.games ≡ false) tag fresh;
        games = saved.games ∙ games;
        new = saved.new;
        players = saved.players ∙ ap (λ rows. rows ++ saved.new) players;
        number = saved.number;
        theirs = saved.theirs;
      })

IsSaved-kept :
    (d : GameData) (g : GameRow) {db middle after : Tables}
    → IsKept db middle
    → IsSaved d g middle after
    → IsSaved d g db after
IsSaved-kept d g k saved = record {
  tag = saved.tag;
  pk = saved.pk ∙ k.next_game;
  next_game = saved.next_game ∙ ap (λ n. n + 1) k.next_game;
  fresh =
      subst (λ gs. exists (λ (h : GameRow). text_eq h.tag d.tag) gs ≡ false) k.games saved.fresh;
  games = saved.games ∙ ap (λ gs. gs ++ g ∷ []) k.games;
  new = saved.new;
  players = saved.players ∙ ap (λ rows. rows ++ saved.new) k.players;
  number = saved.number;
  theirs = saved.theirs;
}

-- Where create_game succeeds, the row has the tag of the report, which no game had before, and the
-- next key, after which the counter is one more; the row stands behind the games that were there, and as many players as the report has, all of that game, stand
-- behind the players that were there.
pub create_game-IsSaved :
    (out : Outside) (server : ℕ) (d : GameData) (date : ℕ) (db : Tables) (g : GameRow)
    (after : Tables)
    → create_game out server d date db ≡ made (g, after)
    → IsSaved d g db after
unfolding create_game game_row
create_game-IsSaved out server d date db g after h =
    let (gametype, a, h1) = bind-made _ _ h in
    let (gametype_legacy, b, h2) = bind-made _ _ h1 in
    let (outcome_legacy, c, h3) = bind-made _ _ h2 in
    IsSaved-kept d g (obtain_for-IsKept out d.mapname db) (
      save_game-IsSaved out (is_coop gametype) d
        (game_row server d date gametype gametype_legacy outcome_legacy
          (obtain_for out d.mapname db).0 db.next_game)
        (obtain_for out d.mapname db).1 g after refl
        (sym (obtain_for-IsKept out d.mapname db).next_game) h3)

insert_game-taken :
    (g : GameRow) (db : Tables)
    → exists (λ (h : GameRow). text_eq h.tag g.tag) db.games ≡ true
    → insert_game g db ≡ failed already_saved
unfolding insert_game
insert_game-taken g db e = rw e refl

save_game-taken :
    (out : Outside) (coop : Bool) (d : GameData) (g : GameRow) (db : Tables)
    → exists (λ (h : GameRow). text_eq h.tag g.tag) db.games ≡ true
    → save_game out coop d g db ≡ failed already_saved
unfolding save_game
save_game-taken out coop d g db e = bind-failed _ _ (insert_game-taken g db e)

IsSaved-taken :
    (d : GameData) (g : GameRow) (db after : Tables)
    → IsSaved d g db after
    → exists (λ (h : GameRow). text_eq h.tag d.tag) after.games ≡ true
IsSaved-taken d g db after saved =
    rw saved.games (exists-last _ db.games g (rw saved.tag (text_eq_refl d.tag)))

pub processed-sent :
    (r : Attempt (GameRow × Tables)) (g : GameRow) (after : Tables)
    → processed r ≡ sent g after
    → r ≡ made (g, after)
processed-sent (made (x, t)) g after h = cc
processed-sent (failed already_saved) g after h = cc
processed-sent (failed Error.key_error) g after h = cc
processed-sent (failed Error.missing_value) g after h = cc
processed-sent (failed Error.empty_name) g after h = cc
processed-sent (failed Error.multiple_providers) g after h = cc

create_game-again :
    (out : Outside) (server : ℕ) (d : GameData) (date : ℕ) (db : Tables) (g : GameRow)
    (after : Tables) (later_out : Outside) (later_server later : ℕ)
    → create_game out server d date db ≡ made (g, after)
    → create_game later_out later_server d later after ≡ failed already_saved
unfolding create_game game_row
create_game-again out server d date db g after later_out later_server later h =
    let saved = create_game-IsSaved out server d date db g after h in
    let (gametype, a, h1) = bind-made _ _ h in
    let (gametype_legacy, b, h2) = bind-made _ _ h1 in
    let (outcome_legacy, c, h3) = bind-made _ _ h2 in
    bind-from _ _ a
    ∙ bind-from _ _ b
    ∙ bind-from _ _ c
    ∙ save_game-taken later_out (is_coop gametype) d _ _
        (rw (obtain_for-IsKept later_out d.mapname after).games (IsSaved-taken d g db after saved))

-- A report that was saved is skipped when the task runs on it again, right after, at any time, for
-- any server and whatever the outside answers then.
pub process_game_data-again :
    (out : Outside) (server : ℕ) (d : GameData) (date : ℕ) (db : Tables) (g : GameRow)
    (after : Tables) (later_out : Outside) (later_server later : ℕ)
    → process_game_data out server d date db ≡ sent g after
    → process_game_data later_out later_server d later after ≡ skipped
unfolding process_game_data
process_game_data-again out server d date db g after later_out later_server later h =
    rw
      (create_game-again out server d date db g after later_out later_server later
        (processed-sent _ g after h))
      refl
