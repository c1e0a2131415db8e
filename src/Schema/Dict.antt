-- ===== src/Schema/Dict.antt =====
-- Python dictionaries as lists of items with distinct keys, in their order; and the comprehension
-- `{v: k for k, v in d.items()}` that apps/tracker/schema.py inverts its tables with.
use swat4stats.Base.{Bool, true, ◌&&◌, Option, none, some, List, [], ◌∷◌, if◌then◌else◌, is_none}
use swat4stats.Base.Eq.{Eq}

abbrev pub Dict : Type 0 → Type 0 → Type 0
Dict K V = List (K × V)

module _ {K V : Type 0} ⦃e : Eq K⦄ where
  -- `d.get(k)`
  abbrev pub get : K → Dict K V → Option V
  get k [] = none
  get k ((l, v) ∷ d) = if e.same k l then some v else get k d

  -- `d[k] = v`
  abbrev pub set : K → V → Dict K V → Dict K V
  set k v [] = (k, v) ∷ []
  set k v ((l, w) ∷ d) = if e.same k l then (l, v) ∷ d else (l, w) ∷ set k v d

  -- No key stands twice.
  abbrev pub distinct : Dict K V → Bool
  distinct [] = true
  distinct ((k, v) ∷ d) = is_none (get k d) && distinct d

module _ {K V : Type 0} ⦃e : Eq V⦄ where
  abbrev pub reverse_into : Dict V K → Dict K V → Dict V K
  reverse_into acc [] = acc
  reverse_into acc ((k, v) ∷ d) = reverse_into (set v k acc) d

  -- The last of the keys with a value stays.
  unfoldable pub reversed : Dict K V → Dict V K
  reversed d = reverse_into [] d
