-- ===== src/Entities/Modes.antt =====
-- Game types, names and outcomes (apps/tracker/entities.py).
use swat4stats.Base.{Bool, true, false, List, [], ◌∷◌}
use swat4stats.Base.Text.{Text, codes}

-- `class GameType`
pub data GameType : Type 0 where
  barricaded_suspects : GameType
  vip_escort : GameType
  rapid_deployment : GameType
  smash_and_grab : GameType
  co_op : GameType
  co_op_qmm : GameType

-- `.value`
unfoldable pub game_type_value : GameType → Text
game_type_value GameType.barricaded_suspects = codes "Barricaded Suspects"
game_type_value GameType.vip_escort = codes "VIP Escort"
game_type_value GameType.rapid_deployment = codes "Rapid Deployment"
game_type_value GameType.smash_and_grab = codes "Smash And Grab"
game_type_value GameType.co_op = codes "CO-OP"
game_type_value GameType.co_op_qmm = codes "CO-OP QMM"

-- `GameType.versus_modes`
unfoldable pub versus_modes : List GameType
versus_modes =
    GameType.barricaded_suspects ∷ GameType.rapid_deployment ∷ GameType.vip_escort
    ∷ GameType.smash_and_grab ∷ []

-- `GameType.coop_modes`
unfoldable pub coop_modes : List GameType
coop_modes = GameType.co_op ∷ GameType.co_op_qmm ∷ []

-- `GameType.is_coop`
unfoldable pub is_coop : GameType → Bool
is_coop GameType.barricaded_suspects = false
is_coop GameType.vip_escort = false
is_coop GameType.rapid_deployment = false
is_coop GameType.smash_and_grab = false
is_coop GameType.co_op = true
is_coop GameType.co_op_qmm = true

-- `class GameName`
pub data GameName : Type 0 where
  swat4 : GameName
  swat4x : GameName

-- `.value`
unfoldable pub game_name_value : GameName → Text
game_name_value GameName.swat4 = codes "SWAT 4"
game_name_value GameName.swat4x = codes "SWAT 4X"

-- `class GameOutcome`
pub data GameOutcome : Type 0 where
  swat_bs : GameOutcome
  sus_bs : GameOutcome
  swat_rd : GameOutcome
  sus_rd : GameOutcome
  tie : GameOutcome
  swat_vip_escape : GameOutcome
  sus_vip_good_kill : GameOutcome
  swat_vip_bad_kill : GameOutcome
  sus_vip_bad_kill : GameOutcome
  coop_completed : GameOutcome
  coop_failed : GameOutcome
  swat_sg : GameOutcome
  sus_sg : GameOutcome

-- `.value`
unfoldable pub game_outcome_value : GameOutcome → Text
game_outcome_value GameOutcome.swat_bs = codes "swat_bs"
game_outcome_value GameOutcome.sus_bs = codes "sus_bs"
game_outcome_value GameOutcome.swat_rd = codes "swat_rd"
game_outcome_value GameOutcome.sus_rd = codes "sus_rd"
game_outcome_value GameOutcome.tie = codes "tie"
game_outcome_value GameOutcome.swat_vip_escape = codes "swat_vip_escape"
game_outcome_value GameOutcome.sus_vip_good_kill = codes "sus_vip_good_kill"
game_outcome_value GameOutcome.swat_vip_bad_kill = codes "swat_vip_bad_kill"
game_outcome_value GameOutcome.sus_vip_bad_kill = codes "sus_vip_bad_kill"
game_outcome_value GameOutcome.coop_completed = codes "coop_completed"
game_outcome_value GameOutcome.coop_failed = codes "coop_failed"
game_outcome_value GameOutcome.swat_sg = codes "swat_sg"
game_outcome_value GameOutcome.sus_sg = codes "sus_sg"

-- `GameOutcome.swat_victories`
unfoldable pub swat_victories : List GameOutcome
swat_victories =
    GameOutcome.swat_bs ∷ GameOutcome.swat_rd ∷ GameOutcome.swat_vip_escape
    ∷ GameOutcome.swat_vip_bad_kill ∷ GameOutcome.swat_sg ∷ []

-- `GameOutcome.sus_victories`
unfoldable pub sus_victories : List GameOutcome
sus_victories =
    GameOutcome.sus_bs ∷ GameOutcome.sus_rd ∷ GameOutcome.sus_vip_good_kill
    ∷ GameOutcome.sus_vip_bad_kill ∷ GameOutcome.sus_sg ∷ []
