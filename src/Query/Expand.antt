-- ===== src/Query/Expand.antt =====
-- `_expand_status_payload`: the dictionary of a payload, with its objectives and players.
use swat4stats.Base.{
  map, Bool, true, ◌&&◌, Option, none, some, List, [], ◌∷◌, ◌++◌, ◌==◌, if◌then◌else◌, elem,
}
use swat4stats.Base.Int.{ℤ, ltb_ℤ}
use swat4stats.Base.Sort.{sorted}
use swat4stats.Base.Text.{Text, codes, text_eq}
use swat4stats.Query.{is_digit, parse_status_payload}
use swat4stats.Query.Number.{parse_int}
use swat4stats.Query.Payload.{after}

-- A dictionary with text keys, in the order of their first entries.
abbrev pub Dict : Type 0
Dict = List (Text × Text)

unfoldable pub set_item : Text → Text → Dict → Dict
set_item k v [] = (k, v) ∷ []
set_item k v ((j, w) ∷ rest) = if text_eq j k then (j, v) ∷ rest else (j, w) ∷ set_item k v rest

-- without the line break that `$` may leave at the end
unfoldable pub cut_break : Text → Text
cut_break [] = []
cut_break (c ∷ []) = if c == 10 then [] else c ∷ []
cut_break (c ∷ d ∷ s) = c ∷ cut_break (d ∷ s)

-- `.+`, for the whole of a text
abbrev pub some_line : Text → Option Text
some_line [] = none
some_line (c ∷ s) = if elem 10 (c ∷ s) then none else some (c ∷ s)

-- `^obj_(?P<name>.+)$`
unfoldable pub obj_match : Text → Option Text
obj_match param = elim (after (codes "obj_") param) [
  | none ↦ none
  | some rest ↦ some_line (cut_break rest)
]

unfoldable pub all_digits : Text → Bool
all_digits [] = true
all_digits (c ∷ s) = is_digit c && all_digits s

-- The parts before and behind the last underscore.
unfoldable pub last_underscore : Text → Option (Text × Text)
last_underscore [] = none
last_underscore (c ∷ s) = elim (last_underscore s) [
  | some (before, behind) ↦ some (c ∷ before, behind)
  | none ↦ if c == b'_' then some ([], s) else none
]

abbrev pub digits_only : Text → Option Text
digits_only [] = none
digits_only (c ∷ s) = if all_digits (c ∷ s) then some (c ∷ s) else none

abbrev pub both : Option Text → Option Text → Option (Text × Text)
both none o = none
both (some a) none = none
both (some a) (some b) = some (a, b)

-- `(?P<param>.+)_(?P<id>\d+)$`: the parameter and the player's id
unfoldable pub player_match : Text → Option (Text × Text)
player_match param = elim (last_underscore (cut_break param)) [
  | none ↦ none
  | some (before, behind) ↦ both (some_line before) (digits_only behind)
]

-- The values under "players" and "objectives", which a plain key of that name overwrites.
pub data Entry (A : Type 0) : Type 0 where
  rows : A → Entry A
  plain : Text → Entry A

pub record Result : Type 0 where
  pub players : Entry (List (Text × Dict))
  pub objectives : Entry (List (Text × Text))
  pub params : Dict

-- The result of a call: `AttributeError` where a text is used as the collection that it overwrote,
-- and `ValueError` where a player's id is no number.
pub data Outcome (A : Type 0) : Type 0 where
  ok : A → Outcome A
  attribute_error : Outcome A
  value_error : Outcome A

-- `players.setdefault(id, {"id": id})[param] = value`
unfoldable pub set_player : Text → Text → Text → List (Text × Dict) → List (Text × Dict)
set_player id param value [] = (id, set_item param value ((codes "id", id) ∷ [])) ∷ []
set_player id param value ((j, d) ∷ rest) =
    if text_eq j id
    then (j, set_item param value d) ∷ rest
    else (j, d) ∷ set_player id param value rest

-- `result[param] = value`
unfoldable pub set_param : Text → Text → Result → Result
set_param param value r =
    if text_eq param (codes "players")
    then record r { players = plain value }
    else if text_eq param (codes "objectives")
    then record r { objectives = plain value }
    else record r { params = set_item param value r.params }

unfoldable pub add_objective : Text → Text → Result → Outcome Result
add_objective name value r = elim r.objectives [
  | rows os ↦ ok (record r { objectives = rows (os ++ (name, value) ∷ []) })
  | plain t ↦ attribute_error
]

unfoldable pub add_player : Text → Text → Text → Result → Outcome Result
add_player id param value r = elim r.players [
  | rows ps ↦ ok (record r { players = rows (set_player id param value ps) })
  | plain t ↦ attribute_error
]

-- One round of the loop.
unfoldable pub expand_param : Text × Text → Result → Outcome Result
expand_param (param, value) r = elim (obj_match param) [
  | some name ↦ add_objective name value r
  | none ↦ elim (player_match param) [
    | some (name, id) ↦ add_player id name value r
    | none ↦ ok (set_param param value r)
  ]
]

unfoldable pub expand_params : List (Text × Text) → Result → Outcome Result
expand_params [] r = ok r
expand_params (p ∷ ps) r = elim (expand_param p r) [
  | ok r' ↦ expand_params ps r'
  | attribute_error ↦ attribute_error
  | value_error ↦ value_error
]

-- `int(player["id"])`, where a parameter may have overwritten the id
unfoldable pub get_item : Text → Dict → Option Text
get_item k [] = none
get_item k ((j, v) ∷ rest) = if text_eq j k then some v else get_item k rest

unfoldable pub player_number : Dict → Option ℤ
player_number d = elim (get_item (codes "id") d) [ none ↦ none | some t ↦ parse_int t ]

unfoldable pub numbered : List (Text × Dict) → Option (List (ℤ × Dict))
numbered [] = some []
numbered ((id, d) ∷ rest) = elim (player_number d) [
  | none ↦ none
  | some n ↦ elim (numbered rest) [ none ↦ none | some ps ↦ some ((n, d) ∷ ps) ]
]

abbrev pub number_before : ℤ × Dict → ℤ × Dict → Bool
number_before (a, d) (b, e) = ltb_ℤ a b

pub record ServerInfo : Type 0 where
  pub players : List Dict
  pub objectives : Entry (List (Text × Text))
  pub params : Dict

-- `sorted(players.values(), key=…)`
unfoldable pub sort_numbered : Result → Option (List (ℤ × Dict)) → Outcome ServerInfo
sort_numbered r none = value_error
sort_numbered r (some ns) = ok record {
  players = map (λ (n, d). d) (sorted number_before ns);
  objectives = r.objectives;
  params = r.params;
}

unfoldable pub sort_entry : Result → Entry (List (Text × Dict)) → Outcome ServerInfo
sort_entry r (plain t) = attribute_error
sort_entry r (rows ps) = sort_numbered r (numbered ps)

unfoldable pub sort_players : Outcome Result → Outcome ServerInfo
sort_players (ok r) = sort_entry r r.players
sort_players attribute_error = attribute_error
sort_players value_error = value_error

abbrev pub empty_result : Result
empty_result = record { players = rows []; objectives = rows []; params = [] }

unfoldable pub expand_status_payload : Text → Outcome ServerInfo
expand_status_payload raw = sort_players (expand_params (parse_status_payload raw) empty_result)
