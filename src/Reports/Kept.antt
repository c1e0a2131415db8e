-- ===== src/Reports/Kept.antt =====
-- What the parts of a report leave alone.
use mathlib.Core.Path.{subst}
use swat4stats.Base.{
  ℕ, ◌≡◌, refl, Bool, true, false, Option, none, some, List, Option-cases, inl, inr,
}
use swat4stats.Base.Text.{Text, text_eq}
use swat4stats.Base.Table.{find?}
use swat4stats.Schema.Dict.{Dict}
use swat4stats.Reports.{
  ProcedureData, ObjectiveData, WeaponData, MapRow, LoadoutRow, Tables, Outside,
}
use swat4stats.Reports.Attempts.{made, bind-made, made-injective}
use swat4stats.Reports.Loadouts.{get_or_create, obtain, same_texts}
use swat4stats.Reports.Parts.{
  obtain_for, procedure_rows, create_game_procedures, objective_rows, create_game_objectives,
}
use swat4stats.Reports.Players.{weapon_rows, create_weapons}

-- The games and the players are as they were, and the key of the next game.
pub record IsKept (db after : Tables) : Type 0 where
  pub games : after.games ≡ db.games
  pub players : after.players ≡ db.players
  pub next_game : after.next_game ≡ db.next_game

pub kept : (db : Tables) → IsKept db db
kept db = record { games = refl; players = refl; next_game = refl }

pub obtain_for-IsKept :
    (out : Outside) (name : Text) (db : Tables) → IsKept db (obtain_for out name db).1
unfolding obtain_for
obtain_for-IsKept out name db =
    elim (Option-cases (find? (λ (m : MapRow). text_eq m.name name) db.maps)) [
      | inl e ↦ rw (e, obtain_for) (record { games = refl; players = refl; next_game = refl })
      | inr (m, e) ↦ rw (e, obtain_for) (kept db)
    ]

get_or_create-IsKept :
    (fields : List Text) (ns : List ℕ) (db : Tables) → IsKept db (get_or_create fields ns db).1
unfolding get_or_create
get_or_create-IsKept fields ns db =
    elim (Option-cases (find? (λ (r : LoadoutRow). same_texts r.fields fields) db.loadouts)) [
      | inl e ↦ rw (e, get_or_create) (record { games = refl; players = refl; next_game = refl })
      | inr (m, e) ↦ rw (e, get_or_create) (kept db)
    ]

pub obtain-IsKept :
    (l : Dict Text Text) (db : Tables) (r : ℕ × Tables) → obtain l db ≡ made r → IsKept db r.1
unfolding obtain
obtain-IsKept l db r h =
    let (ammo, a, rest) = bind-made _ _ h in
    let (equipment, b, done) = bind-made _ _ rest in
    subst (λ q. IsKept db q.1) (made-injective _ _ done) (get_or_create-IsKept _ _ db)

pub create_game_procedures-IsKept :
    (game : ℕ) (ps : Option (List ProcedureData)) (db after : Tables)
    → create_game_procedures game ps db ≡ made after
    → IsKept db after
unfolding create_game_procedures
create_game_procedures-IsKept game none db after h =
    subst (IsKept db) (made-injective _ _ h) (kept db)
create_game_procedures-IsKept game (some ps) db after h =
    let (rows, a, done) = bind-made (procedure_rows game ps) _ h in
    subst (IsKept db) (made-injective _ _ done)
      (record { games = refl; players = refl; next_game = refl })

pub create_game_objectives-IsKept :
    (game : ℕ) (os : Option (List ObjectiveData)) (db after : Tables)
    → create_game_objectives game os db ≡ made after
    → IsKept db after
unfolding create_game_objectives
create_game_objectives-IsKept game none db after h =
    subst (IsKept db) (made-injective _ _ h) (kept db)
create_game_objectives-IsKept game (some os) db after h =
    let (rows, a, done) = bind-made (objective_rows game os) _ h in
    subst (IsKept db) (made-injective _ _ done)
      (record { games = refl; players = refl; next_game = refl })

pub create_weapons-IsKept :
    (coop : Bool) (player : ℕ) (ws : Option (List WeaponData)) (db after : Tables)
    → create_weapons coop player ws db ≡ made after
    → IsKept db after
unfolding create_weapons
create_weapons-IsKept true player ws db after h = subst (IsKept db) (made-injective _ _ h) (kept db)
create_weapons-IsKept false player none db after h =
    subst (IsKept db) (made-injective _ _ h) (kept db)
create_weapons-IsKept false player (some ws) db after h =
    let (rows, a, done) = bind-made (weapon_rows player ws) _ h in
    subst (IsKept db) (made-injective _ _ done)
      (record { games = refl; players = refl; next_game = refl })
