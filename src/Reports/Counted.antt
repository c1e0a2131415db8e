-- ===== src/Reports/Counted.antt =====
-- The players that a report adds.
use mathlib.Core.Path.{subst}
use mathlib.Core.List.{append_assoc, append-nil}
use swat4stats.Base.{
  ℕ, ◌+◌, ◌≡◌, refl, sym, ap, ◌∙◌, Bool, List, [], ◌∷◌, ◌++◌, arith, length, length-append, All,
  All-append,
}
use swat4stats.Reports.{PlayerData, GameData, PlayerRow, Tables, Outside}
use swat4stats.Reports.Attempts.{made, bind-made, made-injective}
use swat4stats.Reports.Create.{create_parts}
use swat4stats.Reports.Players.{or_empty, save_player, create_player, create_game_players}
use swat4stats.Reports.Kept.{
  IsKept, obtain-IsKept, create_game_procedures-IsKept, create_game_objectives-IsKept,
  create_weapons-IsKept,
}

-- The games are as they were, and so many players of the game stand behind the old ones.
pub record HasPlayers (game n : ℕ) (db after : Tables) : Type 0 where
  pub games : after.games ≡ db.games
  pub next_game : after.next_game ≡ db.next_game
  pub new : List PlayerRow
  pub players : after.players ≡ db.players ++ new
  pub number : length new ≡ n
  pub theirs : All (λ r. r.player.game ≡ game) new

HasPlayers-trans :
    {game n m k : ℕ} {db middle after : Tables}
    → HasPlayers game n db middle
    → HasPlayers game m middle after
    → n + m ≡ k
    → HasPlayers game k db after
HasPlayers-trans {db = db} a b e = record {
  games = b.games ∙ a.games;
  next_game = b.next_game ∙ a.next_game;
  new = a.new ++ b.new;
  players = b.players ∙ ap (λ rows. rows ++ b.new) a.players ∙ append_assoc db.players a.new b.new;
  number = rw (length-append a.new b.new, a.number, b.number) e;
  theirs = All-append _ a.new b.new a.theirs b.theirs;
}

HasPlayers-kept : (game : ℕ) {db after : Tables} → IsKept db after → HasPlayers game 0 db after
HasPlayers-kept game {db} k = record {
  games = k.games;
  next_game = k.next_game;
  new = [];
  players = k.players ∙ sym (append-nil db.players);
  number = refl;
  theirs = tt;
}

HasPlayers-save_player :
    (row : PlayerRow) (db : Tables) → HasPlayers row.player.game 1 db (save_player row db)
unfolding save_player
HasPlayers-save_player row db = record {
  games = refl;
  next_game = refl;
  new = row ∷ [];
  players = refl;
  number = refl;
  theirs = (refl, tt);
}

create_player-HasPlayers :
    (out : Outside) (game : ℕ) (coop : Bool) (p : PlayerData) (db after : Tables)
    → create_player out game coop p db ≡ made after
    → HasPlayers game 1 db after
unfolding create_player
create_player-HasPlayers out game coop p db after h =
    let (alias, a, h1) = bind-made _ _ h in
    let (obtained, b, h2) = bind-made _ _ h1 in
    let (team, c, h3) = bind-made _ _ h2 in
    let (status, d, h4) = bind-made _ _ h3 in
    let o = obtain-IsKept _ _ obtained b in
    let k = create_weapons-IsKept coop _ p.weapons _ after h4 in
    HasPlayers-trans
      (HasPlayers-kept game
        (record { games = o.games; players = o.players; next_game = o.next_game }))
      (HasPlayers-trans (HasPlayers-save_player _ obtained.1) (HasPlayers-kept game k) refl) refl

create_game_players-HasPlayers :
    (out : Outside) (game : ℕ) (coop : Bool) (ps : List PlayerData) (db after : Tables)
    → create_game_players out game coop ps db ≡ made after
    → HasPlayers game (length ps) db after
unfolding create_game_players
create_game_players-HasPlayers out game coop [] db after h =
    subst (HasPlayers game 0 db) (made-injective _ _ h) (record {
      games = refl;
      next_game = refl;
      new = [];
      players = sym (append-nil db.players);
      number = refl;
      theirs = tt;
    })
create_game_players-HasPlayers out game coop (p ∷ ps) db after h =
    let (middle, a, rest) = bind-made _ _ h in
    HasPlayers-trans (create_player-HasPlayers out game coop p db middle a)
      (create_game_players-HasPlayers out game coop ps middle after rest) (omega arith)

pub create_parts-HasPlayers :
    (out : Outside) (game : ℕ) (coop : Bool) (d : GameData) (db after : Tables)
    → create_parts out game coop d db ≡ made after
    → HasPlayers game (length (or_empty d.players)) db after
unfolding create_parts
create_parts-HasPlayers out game coop d db after h =
    let (with_procedures, a, h1) = bind-made _ _ h in
    let (with_objectives, b, h2) = bind-made _ _ h1 in
    HasPlayers-trans
      (HasPlayers-kept game (create_game_procedures-IsKept game d.coop_procedures db _ a))
      (HasPlayers-trans {k = length (or_empty d.players)}
        (HasPlayers-kept game (create_game_objectives-IsKept game d.coop_objectives _ _ b))
        (create_game_players-HasPlayers out game coop (or_empty d.players) _ after h2)
        (omega arith))
      (omega arith)
