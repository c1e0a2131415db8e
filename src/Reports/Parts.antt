-- ===== src/Reports/Parts.antt =====
-- The parts of a report beside its players: the map (`MapManager.obtain_for`), the procedures and
-- the objectives (apps/tracker/managers/game.py).
use swat4stats.Base.{ℕ, ◌+◌, Option, none, some, List, [], ◌∷◌, ◌++◌}
use swat4stats.Base.Int.{ℤ, negsuc}
use swat4stats.Base.Text.{Text, text_eq}
use swat4stats.Base.Eq.{codes_eq}
use swat4stats.Base.Table.{find?}
use swat4stats.Query.Number.{parse_int}
use swat4stats.Schema.Dict.{get}
use swat4stats.Schema.Codes.{procedures_reversed, objective_status_reversed}
use swat4stats.Schema.Objectives.{objectives_reversed}
use swat4stats.Reports.{
  ProcedureData, ObjectiveData, MapRow, ProcedureRow, ObjectiveRow, Tables, Outside,
}
use swat4stats.Reports.Attempts.{Attempt, made, ◌>>=◌, found_at}

-- `MapManager.obtain_for`
unfoldable pub obtain_for : Outside → Text → Tables → ℕ × Tables
obtain_for out name db = elim (find? (λ (m : MapRow). text_eq m.name name) db.maps) [
  | some m ↦ (m.pk, db)
  | none ↦ (
    db.next_map,
    record db {
      maps = db.maps ++ record { pk = db.next_map; name = name; slug = out.slugify name } ∷ [];
      next_map = db.next_map + 1;
    },
  )
]

-- `mapnames_reversed.get(data["mapname"], -1)`; the column takes the number that the code spells
abbrev pub legacy_map : Option Text → Option ℤ
legacy_map none = some (negsuc 0)
legacy_map (some code) = parse_int code

unfoldable pub procedure_rows : ℕ → List ProcedureData → Attempt (List ProcedureRow)
procedure_rows game [] = made []
procedure_rows game (p ∷ ps) = do
  legacy ← found_at (get p.name procedures_reversed)
  rows ← procedure_rows game ps
  made (
      record {
        game = game;
        name = p.name;
        name_legacy = legacy;
        status = p.status;
        score = p.score;
      }
      ∷ rows)

-- `if coop_procedures: self._create_game_procedures(…)`; of none there are no rows
unfoldable pub create_game_procedures : ℕ → Option (List ProcedureData) → Tables → Attempt Tables
unfolding procedure_rows
create_game_procedures game none db = made db
create_game_procedures game (some ps) db = do
  rows ← procedure_rows game ps
  made (record db { procedures = db.procedures ++ rows })

unfoldable pub objective_rows : ℕ → List ObjectiveData → Attempt (List ObjectiveRow)
objective_rows game [] = made []
objective_rows game (o ∷ os) = do
  legacy ← found_at (get o.name objectives_reversed)
  status ← found_at (get o.status objective_status_reversed)
  rows ← objective_rows game os
  made (
      record {
        game = game;
        name = o.name;
        name_legacy = legacy;
        status = o.status;
        status_legacy = status;
      }
      ∷ rows)

unfoldable pub create_game_objectives : ℕ → Option (List ObjectiveData) → Tables → Attempt Tables
unfolding objective_rows
create_game_objectives game none db = made db
create_game_objectives game (some os) db = do
  rows ← objective_rows game os
  made (record db { objectives = db.objectives ++ rows })
