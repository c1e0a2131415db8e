-- ===== src/QueryString/Arrays.antt =====
-- `expand_array` of apps/tracker/utils/parser.py. The groups of its pattern hold no opening bracket,
-- so that the key matches exactly if its parts between opening brackets do. The last part may have a
-- line break behind it, which the end of the pattern allows.
use swat4stats.Base.{
  Bool, true, false, Option, none, some, List, [], ◌∷◌, ◌==◌, if◌then◌else◌, elem,
}
use mathlib.Core.Option
use swat4stats.Base.Text.{Text}
use swat4stats.QueryString.{
  Value, text, seq, dict, Values, nil, cons, Items, get_item, del_item, keys, one, split_on,
}
use swat4stats.QueryString.Complex.{set_path}

-- The text without its closing bracket.
abbrev pub closed : Text → Option Text
closed [] = none
closed (c ∷ []) = if c == b']' then some [] else none
closed (c ∷ d ∷ s) = Option.map (λ t. c ∷ t) (closed (d ∷ s))

-- The text with the line break at its end taken off.
abbrev pub chop : Text → Text
chop [] = []
chop (c ∷ []) = if c == b'\n' then [] else c ∷ []
chop (c ∷ d ∷ s) = c ∷ chop (d ∷ s)

-- The subkeys, and whether the list key stands behind them.
abbrev pub add_group : Option Text → Option (List Text × Bool) → Option (List Text × Bool)
add_group none rest = none
add_group (some []) rest = none
add_group (some (c ∷ t)) none = none
add_group (some (c ∷ t)) (some (ks, l)) = some ((c ∷ t) ∷ ks, l)

abbrev pub last_group : Option Text → Option (List Text × Bool)
last_group none = none
last_group (some []) = some ([], true)
last_group (some (c ∷ t)) = some ((c ∷ t) ∷ [], false)

unfoldable pub groups : List Text → Option (List Text × Bool)
groups [] = some ([], false)
groups (part ∷ []) = last_group (closed (chop part))
groups (part ∷ next ∷ parts) = add_group (closed part) (groups (next ∷ parts))

-- `re.match(pattern, dict_key)`: the components and the list key
unfoldable pub matched : List Text → Option (List Text × Bool)
unfolding groups
matched [] = none
matched ([] ∷ parts) = none
matched ((c ∷ s) ∷ parts) =
    if elem b']' (c ∷ s) then none else Option.map (λ (ks, l). ((c ∷ s) ∷ ks, l)) (groups parts)

-- `if not hasattr(dict_value, "append"): …`
abbrev pub values_of : Value → Values
values_of (seq vs) = vs
values_of (text t) = one (text t)
values_of (dict d) = one (dict d)

unfoldable pub set_each : List Text → Bool → Values → Items → Items
set_each ks listkey nil d = d
set_each ks listkey (cons v vs) d =
    set_each ks listkey vs (set_path ks (if listkey then seq (one v) else v) d)

-- One round of the loop; a key that does not match is dropped.
unfoldable pub expand_key : Text → Items → Items
unfolding split_on matched set_each
expand_key key d = elim (get_item key d) [
  | none ↦ d
  | some v ↦ elim (matched (split_on b'[' key)) [
    | none ↦ del_item key d
    | some (ks, listkey) ↦ set_each ks listkey (values_of v) (del_item key d)
  ]
]

unfoldable pub expand_keys : List Text → Items → Items
unfolding expand_key
expand_keys [] d = d
expand_keys (k ∷ ks) d = expand_keys ks (expand_key k d)

-- `expand_array`
unfoldable pub expand_array : Items → Items
unfolding expand_keys
expand_array d = expand_keys (keys d) d
