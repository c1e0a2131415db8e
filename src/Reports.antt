-- ===== src/Reports.antt =====
-- Reports of games: what a game server sends at the end of a round, as `game_schema` of
-- apps/tracker/schema.py leaves it, and the rows that are made of it (apps/tracker/models.py).
-- The widths of the columns are not modelled.
pub mod Attempts
pub mod Loadouts
pub mod Parts
pub mod Players
pub mod Create
pub mod Kept
pub mod Counted
pub mod Saved
pub mod Receive
pub mod Settled
mod Tests
use swat4stats.Base.{ℕ, Bool, Option, List}
use swat4stats.Base.Int.{ℤ}
use swat4stats.Base.Text.{Text}
use swat4stats.Schema.Dict.{Dict}
use swat4stats.Entities.Modes.{GameType}
use swat4stats.Games.Coop.{CoopRank}
use swat4stats.Profiles.{People, Player}
use swat4stats.Geo.Whois.{Ipwhois}

pub record ProcedureData : Type 0 where
  pub name : Text
  pub status : Text
  pub score : ℤ

pub record ObjectiveData : Type 0 where
  pub name : Text
  pub status : Text

-- The name is `none` where the default -1 stands for an unknown code.
pub record WeaponData : Type 0 where
  pub name : Option Text
  pub time : ℕ
  pub shots : ℕ
  pub hits : ℕ
  pub teamhits : ℕ
  pub kills : ℕ
  pub teamkills : ℕ
  pub distance : ℕ

-- Numeric and boolean items.
pub data Stat : Type 0 where
  number : ℤ → Stat
  flag : Bool → Stat

-- An item of a player; `none` is a key that is left out. `items` are the other numeric and boolean
-- ones, by their names.
pub record PlayerData : Type 0 where
  pub name : Text
  pub ip : ℕ
  pub team : Option Text
  pub coop_status : Option (Option Text)
  pub vip : Option Bool
  pub items : Dict Text Stat
  pub loadout : Option (Dict Text Text)
  pub weapons : Option (List WeaponData)

pub record GameData : Type 0 where
  pub tag : Text
  pub gametype : Text
  pub mapname : Text
  pub outcome : Option Text
  pub time : ℕ
  pub player_num : ℕ
  pub score_swat : ℤ
  pub score_sus : ℤ
  pub vict_swat : ℕ
  pub vict_sus : ℕ
  pub bombs_defused : ℕ
  pub bombs_total : ℕ
  pub coop_procedures : Option (List ProcedureData)
  pub coop_objectives : Option (List ObjectiveData)
  pub players : Option (List PlayerData)

-- The row of a game; `mapname` is the legacy code of the map.
pub record GameRow : Type 0 where
  pub pk : ℕ
  pub server : ℕ
  pub tag : Text
  pub date_finished : ℕ
  pub gametype : GameType
  pub gametype_legacy : Option ℤ
  pub map : ℕ
  pub mapname : Option ℤ
  pub outcome : Option Text
  pub outcome_legacy : ℕ
  pub time : ℕ
  pub player_num : ℕ
  pub score_swat : ℤ
  pub score_sus : ℤ
  pub vict_swat : ℕ
  pub vict_sus : ℕ
  pub rd_bombs_defused : ℕ
  pub rd_bombs_total : ℕ
  pub coop_score : ℤ
  pub coop_rank : Option CoopRank

pub record MapRow : Type 0 where
  pub pk : ℕ
  pub name : Text
  pub slug : Text

pub record ProcedureRow : Type 0 where
  pub game : ℕ
  pub name : Text
  pub name_legacy : ℕ
  pub status : Text
  pub score : ℤ

pub record ObjectiveRow : Type 0 where
  pub game : ℕ
  pub name : Text
  pub name_legacy : ℕ
  pub status : Text
  pub status_legacy : ℕ

-- The equipment by field, and the legacy codes.
pub record LoadoutRow : Type 0 where
  pub pk : ℕ
  pub fields : List Text
  pub legacy : List ℕ

-- The columns of a player beside those that the lookups of profiles read.
pub record PlayerRow : Type 0 where
  pub player : Player
  pub team_legacy : ℕ
  pub coop_status : Option Text
  pub coop_status_legacy : ℕ
  pub columns : Dict Text Stat

-- `distance` is in centimetres.
pub record WeaponRow : Type 0 where
  pub player : ℕ
  pub name : Text
  pub name_legacy : ℕ
  pub time : ℕ
  pub shots : ℕ
  pub hits : ℕ
  pub teamhits : ℕ
  pub kills : ℕ
  pub teamkills : ℕ
  pub distance : ℕ

-- The tables that a report is written to. `people` has those that the lookups of aliases read, the
-- games and players of this program among them.
pub record Tables : Type 0 where
  pub people : People
  pub games : List GameRow
  pub maps : List MapRow
  pub procedures : List ProcedureRow
  pub objectives : List ObjectiveRow
  pub loadouts : List LoadoutRow
  pub players : List PlayerRow
  pub weapons : List WeaponRow
  pub next_game : ℕ
  pub next_map : ℕ
  pub next_loadout : ℕ
  pub next_player : ℕ

-- What is not of this program: the ipwhois package, the database's UPPER, the clock, the digest of
-- an address, the test for word characters, and Django's `slugify`.
pub record Outside : Type 0 where
  pub whois : Ipwhois
  pub upper : Text → Text
  pub now : ℕ
  pub hexdigest : ℕ → Text
  pub is_word : ℕ → Bool
  pub slugify : Text → Text
