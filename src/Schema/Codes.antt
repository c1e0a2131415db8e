-- ===== src/Schema/Codes.antt =====
-- The codes of teams, statuses, game types, names, outcomes and procedures
-- (apps/tracker/schema.py).
use swat4stats.Base.{ℕ, Option, none, some, [], ◌∷◌, map}
use swat4stats.Base.Int.{ℤ}
use swat4stats.Query.Number.{parse_int}
use swat4stats.Base.Text.{Text, codes}
use swat4stats.Profiles.{Team}
use swat4stats.Entities.Modes.{
  GameType, game_type_value, GameName, game_name_value, GameOutcome, game_outcome_value,
}
use swat4stats.Entities.Coop.{
  CoopStatus, coop_status_value, CoopObjectiveStatus, coop_objective_status_value, CoopProcedure,
  coop_procedure_value,
}
use swat4stats.Base.Eq.{codes_eq, option_eq}
use swat4stats.Schema.Dict.{Dict, reversed}

-- `Team.value`
unfoldable pub team_value : Team → Text
team_value Team.swat = codes "swat"
team_value Team.suspects = codes "suspects"

-- `teams_encoded`
unfoldable pub teams_encoded : Dict ℕ Text
unfolding team_value
teams_encoded =
    (0, team_value Team.swat) ∷ (1, team_value Team.suspects) ∷ (2, team_value Team.swat) ∷ []

-- `teams_reversed`
unfoldable pub teams_reversed : Dict Text ℕ
unfolding team_value
teams_reversed = (team_value Team.swat, 0) ∷ (team_value Team.suspects, 1) ∷ []

-- `coop_status_encoded`
unfoldable pub coop_status_encoded : Dict ℕ (Option Text)
unfolding coop_status_value
coop_status_encoded =
    (0, none)
    ∷ (1, some (coop_status_value CoopStatus.ready))
    ∷ (2, some (coop_status_value CoopStatus.healthy))
    ∷ (3, some (coop_status_value CoopStatus.injured))
    ∷ (4, some (coop_status_value CoopStatus.incapacitated))
    ∷ []

-- `gametypes_encoded`
unfoldable pub gametypes_encoded : Dict Text Text
unfolding game_type_value
gametypes_encoded =
    (codes "0", game_type_value GameType.barricaded_suspects)
    ∷ (codes "1", game_type_value GameType.vip_escort)
    ∷ (codes "2", game_type_value GameType.rapid_deployment)
    ∷ (codes "3", game_type_value GameType.co_op)
    ∷ (codes "4", game_type_value GameType.smash_and_grab)
    ∷ (codes "5", game_type_value GameType.co_op_qmm)
    ∷ []

-- `gamenames_encoded`
unfoldable pub gamenames_encoded : Dict Text Text
unfolding game_name_value
gamenames_encoded =
    (codes "0", game_name_value GameName.swat4) ∷ (codes "1", game_name_value GameName.swat4x) ∷ []

-- `outcome_encoded`
unfoldable pub outcome_encoded : Dict ℕ (Option Text)
unfolding game_outcome_value
outcome_encoded =
    (0, none)
    ∷ (1, some (game_outcome_value GameOutcome.swat_bs))
    ∷ (2, some (game_outcome_value GameOutcome.sus_bs))
    ∷ (3, some (game_outcome_value GameOutcome.swat_rd))
    ∷ (4, some (game_outcome_value GameOutcome.sus_rd))
    ∷ (5, some (game_outcome_value GameOutcome.tie))
    ∷ (6, some (game_outcome_value GameOutcome.swat_vip_escape))
    ∷ (7, some (game_outcome_value GameOutcome.sus_vip_good_kill))
    ∷ (8, some (game_outcome_value GameOutcome.swat_vip_bad_kill))
    ∷ (9, some (game_outcome_value GameOutcome.sus_vip_bad_kill))
    ∷ (10, some (game_outcome_value GameOutcome.coop_completed))
    ∷ (11, some (game_outcome_value GameOutcome.coop_failed))
    ∷ (12, some (game_outcome_value GameOutcome.swat_sg))
    ∷ (13, some (game_outcome_value GameOutcome.sus_sg))
    ∷ []

-- `objective_status_encoded`
unfoldable pub objective_status_encoded : Dict ℕ Text
unfolding coop_objective_status_value
objective_status_encoded =
    (0, coop_objective_status_value CoopObjectiveStatus.in_progress)
    ∷ (1, coop_objective_status_value CoopObjectiveStatus.completed)
    ∷ (2, coop_objective_status_value CoopObjectiveStatus.failed)
    ∷ []

-- `procedures_encoded`
unfoldable pub procedures_encoded : Dict ℕ Text
unfolding coop_procedure_value
procedures_encoded =
    (0, coop_procedure_value CoopProcedure.suspects_incapacitated)
    ∷ (1, coop_procedure_value CoopProcedure.suspects_arrested)
    ∷ (2, coop_procedure_value CoopProcedure.mission_completed)
    ∷ (3, coop_procedure_value CoopProcedure.failed_to_report_downed_officer)
    ∷ (4, coop_procedure_value CoopProcedure.suspects_neutralized)
    ∷ (5, coop_procedure_value CoopProcedure.no_civilians_injured)
    ∷ (6, coop_procedure_value CoopProcedure.incapacitated_hostage)
    ∷ (7, coop_procedure_value CoopProcedure.killed_hostage)
    ∷ (8, coop_procedure_value CoopProcedure.incapacitated_fellow_officer)
    ∷ (9, coop_procedure_value CoopProcedure.injured_fellow_officer)
    ∷ (10, coop_procedure_value CoopProcedure.no_officers_down)
    ∷ (11, coop_procedure_value CoopProcedure.no_suspects_neutralized)
    ∷ (12, coop_procedure_value CoopProcedure.unauthorized_use_of_deadly_force)
    ∷ (13, coop_procedure_value CoopProcedure.unauthorized_use_of_force)
    ∷ (14, coop_procedure_value CoopProcedure.player_uninjured)
    ∷ (15, coop_procedure_value CoopProcedure.failed_to_prevent_destruction_of_evidence)
    ∷ (16, coop_procedure_value CoopProcedure.failed_to_apprehend_fleeing_suspect)
    ∷ (17, coop_procedure_value CoopProcedure.report_status_to_toc)
    ∷ (18, coop_procedure_value CoopProcedure.all_evidence_secured)
    ∷ []

-- `coop_status_reversed`, `outcome_reversed`, `objective_status_reversed`, `procedures_reversed`
unfoldable pub coop_status_reversed : Dict (Option Text) ℕ
unfolding coop_status_encoded reversed
coop_status_reversed = reversed coop_status_encoded

unfoldable pub outcome_reversed : Dict (Option Text) ℕ
unfolding outcome_encoded reversed
outcome_reversed = reversed outcome_encoded

unfoldable pub objective_status_reversed : Dict Text ℕ
unfolding objective_status_encoded reversed
objective_status_reversed = reversed objective_status_encoded

unfoldable pub procedures_reversed : Dict Text ℕ
unfolding procedures_encoded reversed
procedures_reversed = reversed procedures_encoded

-- `gametypes_reversed`: the keys go through `int`, where `none` would be its `ValueError`
unfoldable pub gametypes_reversed : Dict Text (Option ℤ)
unfolding gametypes_encoded reversed
gametypes_reversed = reversed (map (λ (k, v). (parse_int k, v)) gametypes_encoded)
