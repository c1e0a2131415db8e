-- ===== src/QueryString/Complex.antt =====
-- `set_complex_key_item` and `expand_dots` of apps/tracker/utils/parser.py.
use swat4stats.Base.{Option, none, some, List, [], ◌∷◌, map}
use swat4stats.Base.Text.{Text}
use swat4stats.Names.{strip}
use swat4stats.QueryString.{
  Value, text, seq, dict, Values, cons, Items, end, get_item, set_item, del_item, keys, join_values,
  one, split_on,
}

-- `extend` with a list, `append` of all else, to a list.
abbrev pub grown : Values → Value → Values
grown vs (seq ws) = join_values vs ws
grown vs (text t) = join_values vs (one (text t))
grown vs (dict d) = join_values vs (one (dict d))

-- What stands at an occupied key after one more value; a dictionary stays.
abbrev pub merged : Value → Value → Value
merged (seq vs) v = seq (grown vs v)
merged (text t) v = seq (cons (text t) (one v))
merged (dict d) v = dict d

-- The value at the last component.
unfoldable pub set_last : Text → Value → Items → Items
set_last k v d = elim (get_item k d) [ none ↦ set_item k v d | some w ↦ set_item k (merged w v) d ]

-- `nested_dict[key]`, after all but a dictionary has been replaced with an empty one
abbrev pub items_of : Option Value → Items
items_of none = end
items_of (some (text t)) = end
items_of (some (seq vs)) = end
items_of (some (dict d)) = d

-- `set_complex_key_item`, with the last component apart
unfoldable pub set_complex_key_item : List Text → Text → Value → Items → Items
unfolding set_last
set_complex_key_item [] last v d = set_last last v d
set_complex_key_item (k ∷ ks) last v d =
    set_item k (dict (set_complex_key_item ks last v (items_of (get_item k d)))) d

-- All components but the last, and the last.
abbrev pub split_last : Text → List Text → List Text × Text
split_last k [] = ([], k)
split_last k (l ∷ ks) = let (init, last) = split_last l ks in (k ∷ init, last)

abbrev pub set_path : List Text → Value → Items → Items
set_path [] v d = d
set_path (k ∷ ks) v d = let (init, last) = split_last k ks in set_complex_key_item init last v d

-- `filter(None, …)`
abbrev pub non_empty : List Text → List Text
non_empty [] = []
non_empty ([] ∷ ts) = non_empty ts
non_empty ((c ∷ t) ∷ ts) = (c ∷ t) ∷ non_empty ts

unfoldable pub components : Text → List Text
unfolding split_on
components key = non_empty (map strip (split_on b'.' key))

-- One round of the loop in `expand_dots`; the keys of the copy are all there.
unfoldable pub expand_dot : Text → Items → Items
unfolding components set_complex_key_item
expand_dot key d = elim (get_item key d) [
  | none ↦ d
  | some v ↦ set_path (components key) v (del_item key d)
]

unfoldable pub expand_each : List Text → Items → Items
unfolding expand_dot
expand_each [] d = d
expand_each (k ∷ ks) d = expand_each ks (expand_dot k d)

-- `expand_dots`
unfoldable pub expand_dots : Items → Items
unfolding expand_each
expand_dots d = expand_each (keys d) d
