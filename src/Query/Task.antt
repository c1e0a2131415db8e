-- ===== src/Query/Task.antt =====
-- `ServerStatusTask.start` and `Task.execute` (apps/tracker/utils/aio.py).
use swat4stats.Base.{ℕ, Option, none, some, List, [], ◌∷◌, ◌++◌}
use swat4stats.Base.Text.{Text}
use swat4stats.Query.Collect.{payload, incomplete, malformed, collect_status_payload}
use swat4stats.Query.Expand.{
  Outcome, ok, attribute_error, value_error, ServerInfo, expand_status_payload,
}

-- What the task ends with: the information, or the exception.
pub data Ended : Type 0 where
  info : ServerInfo → Ended
  attribute_failed : Ended
  value_failed : Ended
  malformed_failed : Ended
  timed_out : Ended

unfoldable pub expanded : Outcome ServerInfo → Ended
expanded (ok i) = info i
expanded attribute_error = attribute_failed
expanded value_error = value_failed

-- The loop, with the packets received before and those that still arrive within the timeout.
unfoldable pub receive : List Text → List Text → Ended
receive received [] = timed_out
receive received (buf ∷ arriving) = elim (collect_status_payload (received ++ buf ∷ [])) [
  | payload raw ↦ expanded (expand_status_payload raw)
  | incomplete ↦ receive (received ++ buf ∷ []) arriving
  | malformed ↦ malformed_failed
]

unfoldable pub start : List Text → Ended
start arriving = receive [] arriving

-- `execute`, `complete` and `fail`: the callback gets the id and the result or the exception, if
-- there is a callback.
unfoldable pub execute : {S : Type 0} → Option (ℕ → Ended → S → S) → ℕ → List Text → S → S
execute none result_id arriving state = state
execute (some callback) result_id arriving state = callback result_id (start arriving) state
