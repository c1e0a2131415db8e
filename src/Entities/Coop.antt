-- ===== src/Entities/Coop.antt =====
-- Statuses and procedures of coop games (apps/tracker/entities.py).
use swat4stats.Base.Text.{Text, codes}

-- `class CoopStatus`
pub data CoopStatus : Type 0 where
  ready : CoopStatus
  healthy : CoopStatus
  injured : CoopStatus
  incapacitated : CoopStatus

-- `.value`
unfoldable pub coop_status_value : CoopStatus → Text
coop_status_value CoopStatus.ready = codes "Ready"
coop_status_value CoopStatus.healthy = codes "Healthy"
coop_status_value CoopStatus.injured = codes "Injured"
coop_status_value CoopStatus.incapacitated = codes "Incapacitated"

-- `class CoopObjectiveStatus`
pub data CoopObjectiveStatus : Type 0 where
  in_progress : CoopObjectiveStatus
  completed : CoopObjectiveStatus
  failed : CoopObjectiveStatus

-- `.value`
unfoldable pub coop_objective_status_value : CoopObjectiveStatus → Text
coop_objective_status_value CoopObjectiveStatus.in_progress = codes "In Progress"
coop_objective_status_value CoopObjectiveStatus.completed = codes "Completed"
coop_objective_status_value CoopObjectiveStatus.failed = codes "Failed"

-- `class CoopProcedure`
pub data CoopProcedure : Type 0 where
  suspects_incapacitated : CoopProcedure
  suspects_arrested : CoopProcedure
  mission_completed : CoopProcedure
  failed_to_report_downed_officer : CoopProcedure
  suspects_neutralized : CoopProcedure
  no_civilians_injured : CoopProcedure
  incapacitated_hostage : CoopProcedure
  killed_hostage : CoopProcedure
  incapacitated_fellow_officer : CoopProcedure
  injured_fellow_officer : CoopProcedure
  no_officers_down : CoopProcedure
  no_suspects_neutralized : CoopProcedure
  unauthorized_use_of_deadly_force : CoopProcedure
  unauthorized_use_of_force : CoopProcedure
  player_uninjured : CoopProcedure
  failed_to_prevent_destruction_of_evidence : CoopProcedure
  failed_to_apprehend_fleeing_suspect : CoopProcedure
  report_status_to_toc : CoopProcedure
  all_evidence_secured : CoopProcedure

-- `.value`
unfoldable pub coop_procedure_value : CoopProcedure → Text
coop_procedure_value CoopProcedure.suspects_incapacitated = codes "Suspects incapacitated"
coop_procedure_value CoopProcedure.suspects_arrested = codes "Suspects arrested"
coop_procedure_value CoopProcedure.mission_completed = codes "Mission completed"
coop_procedure_value CoopProcedure.failed_to_report_downed_officer =
    codes "Failed to report a downed officer"
coop_procedure_value CoopProcedure.suspects_neutralized = codes "Suspects neutralized"
coop_procedure_value CoopProcedure.no_civilians_injured = codes "No civilians injured"
coop_procedure_value CoopProcedure.incapacitated_hostage = codes "Incapacitated a hostage"
coop_procedure_value CoopProcedure.killed_hostage = codes "Killed a hostage"
coop_procedure_value CoopProcedure.incapacitated_fellow_officer =
    codes "Incapacitated a fellow officer"
coop_procedure_value CoopProcedure.injured_fellow_officer = codes "Injured a fellow officer"
coop_procedure_value CoopProcedure.no_officers_down = codes "No officers down"
coop_procedure_value CoopProcedure.no_suspects_neutralized = codes "No suspects neutralized"
coop_procedure_value CoopProcedure.unauthorized_use_of_deadly_force =
    codes "Unauthorized use of deadly force"
coop_procedure_value CoopProcedure.unauthorized_use_of_force = codes "Unauthorized use of force"
coop_procedure_value CoopProcedure.player_uninjured = codes "Player uninjured"
coop_procedure_value CoopProcedure.failed_to_prevent_destruction_of_evidence =
    codes "Failed to prevent destruction of evidence."
coop_procedure_value CoopProcedure.failed_to_apprehend_fleeing_suspect =
    codes "Failed to apprehend fleeing suspect."
coop_procedure_value CoopProcedure.report_status_to_toc = codes "Report status to TOC"
coop_procedure_value CoopProcedure.all_evidence_secured = codes "All evidence secured"
