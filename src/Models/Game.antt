-- ===== src/Models/Game.antt =====
-- `class Game` (apps/tracker/models.py), with the columns that the denormalised game statistics
-- of servers, maps and profiles are computed from.
use swat4stats.Base.{ℕ}

pub record Game : Type 0 where
  pub pk : ℕ
  pub server_id : ℕ
  pub map_id : ℕ
  pub date_finished : ℕ
