-- ===== src/Reports/Players.antt =====
-- `_create_game_players` (apps/tracker/managers/game.py).
use swat4stats.Base.{
  ℕ, ◌+◌, Bool, true, false, Option, none, some, List, [], ◌∷◌, ◌++◌, if◌then◌else◌,
}
use swat4stats.Base.Text.{Text, codes, text_eq}
use swat4stats.Base.Eq.{codes_eq, option_eq}
use swat4stats.Names.Force.{force_name}
use swat4stats.Profiles.{Team}
use swat4stats.Profiles.Aliases as Aliases
use swat4stats.Profiles.Aliases.{AliasAnswer, found, value_error, isp_error}
use swat4stats.Schema.Dict.{Dict, get}
use swat4stats.Schema.Codes.{team_value, teams_reversed, coop_status_reversed}
use swat4stats.Schema.Items.{weapon_reversed}
use swat4stats.Reports.{Stat, WeaponData, PlayerData, PlayerRow, WeaponRow, Tables, Outside}
use swat4stats.Reports.Attempts.{
  missing_value, empty_name, multiple_providers, Attempt, made, failed, ◌>>=◌, found_at,
}
use swat4stats.Reports.Loadouts.{obtain}

-- `fields`, but for the team, the coop status and the flag of the VIP
abbrev pub fields : List Text
fields =
    codes "admin"
    ∷ codes "dropped"
    ∷ codes "score"
    ∷ codes "time"
    ∷ codes "kills"
    ∷ codes "teamkills"
    ∷ codes "deaths"
    ∷ codes "suicides"
    ∷ codes "arrests"
    ∷ codes "arrested"
    ∷ codes "kill_streak"
    ∷ codes "arrest_streak"
    ∷ codes "death_streak"
    ∷ codes "vip_captures"
    ∷ codes "vip_rescues"
    ∷ codes "vip_escapes"
    ∷ codes "vip_kills_valid"
    ∷ codes "vip_kills_invalid"
    ∷ codes "rd_bombs_defused"
    ∷ codes "sg_escapes"
    ∷ codes "sg_kills"
    ∷ codes "coop_hostage_arrests"
    ∷ codes "coop_hostage_hits"
    ∷ codes "coop_hostage_incaps"
    ∷ codes "coop_hostage_kills"
    ∷ codes "coop_enemy_arrests"
    ∷ codes "coop_enemy_incaps"
    ∷ codes "coop_enemy_kills"
    ∷ codes "coop_enemy_incaps_invalid"
    ∷ codes "coop_enemy_kills_invalid"
    ∷ codes "coop_toc_reports"
    ∷ []

-- The loop over the fields: the items that are there are set.
unfoldable pub set_fields : List Text → Dict Text Stat → Dict Text Stat
set_fields [] items = []
set_fields (f ∷ fs) items = elim (get f items) [
  | none ↦ set_fields fs items
  | some v ↦ (f, v) ∷ set_fields fs items
]

abbrev pub alias_of : AliasAnswer → Attempt ℕ
alias_of (found pk created) = made pk
alias_of value_error = failed empty_name
alias_of isp_error = failed multiple_providers

-- The team by its text.
abbrev pub team_of : Text → Option Team
team_of t =
    if text_eq t (team_value Team.swat)
    then some Team.swat
    else if text_eq t (team_value Team.suspects)
    then some Team.suspects
    else none

-- The team and its legacy code: without a team the row cannot be saved.
unfoldable pub team_columns : Option Text → Attempt (Team × ℕ)
team_columns none = failed missing_value
team_columns (some t) = do
  legacy ← found_at (get t teams_reversed)
  team ← found_at (team_of t)
  made (team, legacy)

-- The status and its legacy code
unfoldable pub coop_status_columns : Option (Option Text) → Attempt (Option Text × ℕ)
coop_status_columns none = made (none, 0)
coop_status_columns (some s) = do legacy ← found_at (get s coop_status_reversed); made (s, legacy)

-- The weapons whose name is known.
unfoldable pub weapon_rows : ℕ → List WeaponData → Attempt (List WeaponRow)
weapon_rows player [] = made []
weapon_rows player (w ∷ ws) = do
  rows ← weapon_rows player ws
  elim w.name [
    | none ↦ made rows
    | some name ↦ found_at (get name weapon_reversed) >>= λ legacy. made (
        record {
          player = player;
          name = name;
          name_legacy = legacy;
          time = w.time;
          shots = w.shots;
          hits = w.hits;
          teamhits = w.teamhits;
          kills = w.kills;
          teamkills = w.teamkills;
          distance = w.distance;
        }
        ∷ rows)
  ]

-- `if not game.is_coop_game and player_item.get("weapons")`
unfoldable pub create_weapons : Bool → ℕ → Option (List WeaponData) → Tables → Attempt Tables
unfolding weapon_rows
create_weapons true player weapons db = made db
create_weapons false player none db = made db
create_weapons false player (some ws) db = do
  rows ← weapon_rows player ws
  made (record db { weapons = db.weapons ++ rows })

abbrev pub or_empty : {A : Type 0} → Option (List A) → List A
or_empty none = []
or_empty (some xs) = xs

abbrev pub or_false : Option Bool → Bool
or_false none = false
or_false (some b) = b

-- `player_obj.save()`
unfoldable pub save_player : PlayerRow → Tables → Tables
save_player row db = record db {
  players = db.players ++ row ∷ [];
  people = record db.people { players = db.people.players ++ row.player ∷ [] };
  next_player = db.next_player + 1;
}

-- One round of the loop over the players.
unfoldable pub create_player : Outside → ℕ → Bool → PlayerData → Tables → Attempt Tables
unfolding set_fields team_columns coop_status_columns create_weapons save_player
create_player out game is_coop p db =
    let (answer, people) =
      Aliases.match_or_create out.upper out.whois out.now
        (force_name out.hexdigest out.is_word p.name p.ip) p.ip db.people in
    do
      alias ← alias_of answer
      obtained ← obtain (or_empty p.loadout) (record db { people = people })
      team ← team_columns p.team
      status ← coop_status_columns p.coop_status
      create_weapons is_coop obtained.1.next_player p.weapons (
          save_player
            (record {
              player = record {
                pk = obtained.1.next_player;
                game = game;
                alias = alias;
                ip = p.ip;
                team = team.0;
                loadout = obtained.0;
                vip = or_false p.vip;
              };
              team_legacy = team.1;
              coop_status = status.0;
              coop_status_legacy = status.1;
              columns = set_fields fields p.items;
            })
            obtained.1)

unfoldable pub create_game_players : Outside → ℕ → Bool → List PlayerData → Tables → Attempt Tables
unfolding create_player
create_game_players out game is_coop [] db = made db
create_game_players out game is_coop (p ∷ ps) db = do
  after ← create_player out game is_coop p db
  create_game_players out game is_coop ps after
