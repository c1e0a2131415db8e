-- ===== src/Profiles.antt =====
-- Players behind names (apps/tracker/managers/profile.py and alias.py): the tables of profiles,
-- aliases and players, and the operations on them. An address is a number; a date is a number of
-- seconds.
pub mod Popular
pub mod Match
pub mod Aliases
pub mod First
pub mod Smart
pub mod Links
pub mod Seen
pub mod Preferences
pub mod Preferred
mod Tests
use swat4stats.Base.{ℕ, Bool, Option, List}
use swat4stats.Base.Text.{Text}
use swat4stats.Geo.{Geo}
use swat4stats.Models.Game.{Game}

pub data Team : Type 0 where
  swat : Team
  suspects : Team

pub record Profile : Type 0 where
  pub pk : ℕ
  pub name : Option Text
  pub team : Option Team
  pub team_legacy : Option ℕ
  pub country : Option Text
  pub loadout : Option ℕ
  pub game_first : Option ℕ
  pub game_last : Option ℕ
  pub first_seen_at : Option ℕ
  pub last_seen_at : Option ℕ
  pub preferences_updated_at : Option ℕ
  pub alias_updated_at : Option ℕ

pub record Alias : Type 0 where
  pub pk : ℕ
  pub name : Text
  pub profile : ℕ
  pub isp : Option ℕ
  pub created_at : ℕ

-- The columns of a player in a game that the lookups read.
pub record Player : Type 0 where
  pub pk : ℕ
  pub game : ℕ
  pub alias : ℕ
  pub ip : ℕ
  pub team : Team
  pub loadout : ℕ
  pub vip : Bool

pub record People : Type 0 where
  pub geo : Geo
  pub profiles : List Profile
  pub aliases : List Alias
  pub players : List Player
  pub games : List Game
  pub next_profile : ℕ
  pub next_alias : ℕ
