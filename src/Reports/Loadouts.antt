-- ===== src/Reports/Loadouts.antt =====
-- `LoadoutManager.obtain` (apps/tracker/managers/loadout.py).
use swat4stats.Base.{ℕ, ◌+◌, Bool, true, false, ◌&&◌, Option, none, some, List, [], ◌∷◌, ◌++◌, map}
use swat4stats.Base.Text.{Text, codes, text_eq}
use swat4stats.Base.Eq.{codes_eq}
use swat4stats.Base.Table.{find?}
use swat4stats.Schema.Dict.{Dict, get}
use swat4stats.Schema.Items.{equipment_reversed, ammo_reversed}
use swat4stats.Entities.Equipment.{Equipment, equipment_value}
use swat4stats.Reports.{LoadoutRow, Tables}
use swat4stats.Reports.Attempts.{Attempt, made, ◌>>=◌, found_at}

abbrev pub equipment_fields : List Text
equipment_fields =
    codes "primary"
    ∷ codes "secondary"
    ∷ codes "equip_one"
    ∷ codes "equip_two"
    ∷ codes "equip_three"
    ∷ codes "equip_four"
    ∷ codes "equip_five"
    ∷ codes "breacher"
    ∷ codes "head"
    ∷ codes "body"
    ∷ []

abbrev pub ammo_fields : List Text
ammo_fields = codes "primary_ammo" ∷ codes "secondary_ammo" ∷ []

-- `loadout.get(field) or Equipment.none.value`
abbrev pub or_none : Option Text → Text
or_none none = equipment_value Equipment.none
or_none (some []) = equipment_value Equipment.none
or_none (some (c ∷ t)) = c ∷ t

unfoldable pub values : Dict Text Text → List Text → List Text
values loadout = map (λ field. or_none (get field loadout))

-- The legacy codes of texts, in order.
unfoldable pub legacy : Dict Text ℕ → List Text → Attempt (List ℕ)
legacy table [] = made []
legacy table (t ∷ ts) = do n ← found_at (get t table); ns ← legacy table ts; made (n ∷ ns)

abbrev pub same_texts : List Text → List Text → Bool
same_texts [] [] = true
same_texts [] (u ∷ us) = false
same_texts (t ∷ ts) [] = false
same_texts (t ∷ ts) (u ∷ us) = text_eq t u && same_texts ts us

-- `get_or_create`
unfoldable pub get_or_create : List Text → List ℕ → Tables → ℕ × Tables
get_or_create fields codes_of db =
    elim (find? (λ (r : LoadoutRow). same_texts r.fields fields) db.loadouts) [
      | some r ↦ (r.pk, db)
      | none ↦ (
        db.next_loadout,
        record db {
          loadouts =
              db.loadouts
              ++ record { pk = db.next_loadout; fields = fields; legacy = codes_of } ∷ [];
          next_loadout = db.next_loadout + 1;
        },
      )
    ]

-- `obtain`: the equipment, then the ammunition
unfoldable pub obtain : Dict Text Text → Tables → Attempt (ℕ × Tables)
unfolding values legacy get_or_create
obtain loadout db = do
  ammo ← legacy ammo_reversed (values loadout ammo_fields)
  equipment ← legacy equipment_reversed (values loadout equipment_fields)
  made (
      get_or_create (values loadout equipment_fields ++ values loadout ammo_fields)
        (equipment ++ ammo) db)
