-- ===== src/Profiles/Seen.antt =====
-- `update_with_game`: the first and the last game of the profiles that played in a game.
use swat4stats.Base.{
  ℕ, ◌≡◌, ◌∙◌, Bool, ◌&&◌, not, Option, none, some, List, [], ◌∷◌, map, arith, ◌==◌, if◌then◌else◌,
  holds, is_none, All-all,
}
use swat4stats.Base.Table.{update_where, exists, map_congr}
use swat4stats.Models.Game.{Game}
use swat4stats.Profiles.{Profile, Alias, Player, People}
use mathlib.Core.List.{map-map}

module _ (aliases : List Alias) (players : List Player) where
  -- `alias__player__game=game`
  unfoldable pub has_played : Game → ℕ → Bool
  has_played game profile =
      exists
        (λ (a : Alias).
          a.profile == profile
          && exists (λ (q : Player). q.alias == a.pk && q.game == game.pk) players)
        aliases

  -- The first update, of the profiles without a first game.
  unfoldable pub first_game_update : Game → List Profile → List Profile
  first_game_update game =
      update_where (λ (p : Profile). has_played game p.pk && is_none p.game_first)
        (λ p. record p { game_first = some game.pk; first_seen_at = some game.date_finished })

  -- The second update, of the profiles whose last game is another one or NULL.
  unfoldable pub last_game_update : Game → List Profile → List Profile
  last_game_update game =
      update_where (λ (p : Profile). has_played game p.pk && not (holds p.game_last game.pk))
        (λ p. record p { game_last = some game.pk; last_seen_at = some game.date_finished })

unfoldable pub update_with_game : Game → People → People
update_with_game game db = record db {
  profiles =
      last_game_update db.aliases db.players game
        (first_game_update db.aliases db.players game db.profiles);
}

-- The games of a list, one after the other.
abbrev pub replay : List Game → People → People
replay [] db = db
replay (g ∷ gs) db = replay gs (update_with_game g db)

-- A value that is set already, else that of the game.
abbrev pub or_game : Option ℕ → Option Game → Option ℕ
or_game (some v) g = some v
or_game none none = none
or_game none (some g) = some g.pk

-- The date of the first game, where it is new.
abbrev pub or_date : Option ℕ → Option ℕ → Option Game → Option ℕ
or_date (some v) date g = date
or_date none date none = date
or_date none date (some g) = some g.date_finished

-- Key, first game, date of the first game and last game.
abbrev pub Seen : Type 0
Seen = ℕ × Option ℕ × Option ℕ × Option ℕ

abbrev pub seen : Profile → Seen
seen p = (p.pk, p.game_first, p.first_seen_at, p.game_last)

module _ (aliases : List Alias) (players : List Player) where
  -- The first game of a list in which the profile played, and the last.
  abbrev pub first_played : List Game → ℕ → Option Game
  first_played [] pk = none
  first_played (g ∷ gs) pk = if has_played aliases players g pk then some g else first_played gs pk

  abbrev pub last_played : List Game → Option ℕ → ℕ → Option ℕ
  last_played [] old pk = old
  last_played (g ∷ gs) old pk =
      last_played gs (if has_played aliases players g pk then some g.pk else old) pk

  abbrev pub expected : List Game → Profile → Seen
  expected gs p = (
    p.pk,
    or_game p.game_first (first_played gs p.pk),
    or_date p.game_first p.first_seen_at (first_played gs p.pk),
    last_played gs p.game_last p.pk,
  )

  abbrev first_touch : Game → Profile → Profile
  first_touch g p =
      if has_played aliases players g p.pk && is_none p.game_first
      then record p { game_first = some g.pk; first_seen_at = some g.date_finished }
      else p

  abbrev last_touch : Game → Profile → Profile
  last_touch g p =
      if has_played aliases players g p.pk && not (holds p.game_last g.pk)
      then record p { game_last = some g.pk; last_seen_at = some g.date_finished }
      else p

  expected_nil : (p : Profile) → seen p ≡ expected [] p
  expected_nil p = ground arith

  expected_step :
      (g : Game) (gs : List Game) (p : Profile)
      → expected gs (last_touch g (first_touch g p)) ≡ expected (g ∷ gs) p
  expected_step g gs p = ground arith

-- Where games are replayed in order, each profile keeps its first game or gets the first game of
-- the list that it played in, with its date, and gets the last game of the list that it played in
-- as its last game.
pub replay-expected :
    (gs : List Game) (db : People)
    → map seen (replay gs db).profiles ≡ map (expected db.aliases db.players gs) db.profiles
unfolding update_with_game first_game_update last_game_update
replay-expected [] db =
    map_congr _ _ db.profiles (All-all _ (expected_nil db.aliases db.players) db.profiles)
replay-expected (g ∷ gs) db =
    replay-expected gs (update_with_game g db)
    ∙ map-map (expected db.aliases db.players gs) (last_touch db.aliases db.players g) _
    ∙ map-map (λ p. expected db.aliases db.players gs (last_touch db.aliases db.players g p))
        (first_touch db.aliases db.players g) db.profiles
    ∙ map_congr _ _ db.profiles (All-all _ (expected_step db.aliases db.players g gs) db.profiles)
