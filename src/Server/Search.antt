-- ===== src/Server/Search.antt =====
-- The search columns of the servers under the task `update_search_vector_for_model`
-- (apps/tracker/tasks/search.py), which pages through the servers that require an update.
use swat4stats.Base.{
  ℕ, ◌+◌, ◌≡◌, Bool, false, ◌&&◌, ◌||◌, true, some, List, [], ◌∷◌, map, if◌then◌else◌, elem,
  is_some, is_none,
}
use mathlib.Core.Option
use swat4stats.Models.Server.{Server}
use swat4stats.Server.Status.{is_later, require_search_update}

abbrev pk : Server → ℕ
pk s = s.pk

-- The test of `require_search_update`.
abbrev pub requires : Server → Bool
requires s =
    is_some s.hostname_updated_at
    && (is_none s.search_updated_at || is_later s.hostname_updated_at s.search_updated_at)

abbrev searched : ℕ → List ℕ → Server → Server
searched now ids s = if elem s.pk ids then record s { search_updated_at = some now } else s

-- The row after the updates of the pages from one on.
abbrev touched : (ℕ → ℕ) → ℕ → List (List Server) → Server → Server
touched clock i [] s = s
touched clock i (chunk ∷ chunks) s =
    touched clock (i + 1) chunks (searched (clock i) (map pk chunk) s)

-- The row with the moment of the update of some page, or as it was.
abbrev pub IsStamped : (ℕ → ℕ) → Bool → Server → Server → Type 0
IsStamped clock true s t = (j : ℕ) × (t ≡ record s { search_updated_at = some (clock j) })
IsStamped clock false s t = t ≡ s

-- Row by row: a row that requires an update has the moment of the update of a page, and requires one
-- again exactly if its hostname was changed after that moment; the others are as they were.
abbrev pub IsRefreshed : (ℕ → ℕ) → Bool → Server → Server → Type 0
IsRefreshed clock true s t =
    (j : ℕ) × (t ≡ record s { search_updated_at = some (clock j) })
    × (require_search_update (t ∷ [])
        ≡ (if is_later s.hostname_updated_at (some (clock j)) then t ∷ [] else []))
IsRefreshed clock false s t = t ≡ s

abbrev pub AreRefreshed : (ℕ → ℕ) → List Server → List Server → Type 0
AreRefreshed clock [] [] = Unit
AreRefreshed clock [] (t ∷ after) = ⊥
AreRefreshed clock (s ∷ rows) [] = ⊥
AreRefreshed clock (s ∷ rows) (t ∷ after) =
    IsRefreshed clock (requires s) s t × AreRefreshed clock rows after
