-- ===== src/Models/Db.antt =====
-- The tables that the server registry works on, and the key that the next new server gets.
use swat4stats.Base.{ℕ, List}
use swat4stats.Models.Server.{Server}
use swat4stats.Models.Game.{Game}

pub record Db : Type 0 where
  pub servers : List Server
  pub next_server : ℕ
  pub games : List Game
