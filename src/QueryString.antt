-- ===== src/QueryString.antt =====
-- The query string of a report (apps/tracker/utils/parser.py): `JuliaQueryString`. The decoding of
-- percent signs, `unquote_plus` of Python's urllib, is a parameter.
pub mod Complex
pub mod Arrays
pub mod Render
pub mod Paths
mod Tests
use swat4stats.Base.{
  ℕ, Bool, true, false, Option, none, some, List, [], ◌∷◌, map, ◌==◌, if◌then◌else◌,
}
use swat4stats.Base.Text.{Text, text_eq}

unfoldable pub lstrip_char : ℕ → Text → Text
lstrip_char c [] = []
lstrip_char c (d ∷ s) = if d == c then lstrip_char c s else d ∷ s

abbrev pub keep_last : ℕ → ℕ → Text → Text
keep_last c d [] = if d == c then [] else d ∷ []
keep_last c d (e ∷ s) = d ∷ e ∷ s

unfoldable pub rstrip_char : ℕ → Text → Text
rstrip_char c [] = []
rstrip_char c (d ∷ s) = keep_last c d (rstrip_char c s)

-- `s.strip(c)`
unfoldable pub strip_char : ℕ → Text → Text
unfolding lstrip_char rstrip_char
strip_char c s = rstrip_char c (lstrip_char c s)

abbrev pub push : ℕ → List Text → List Text
push d [] = (d ∷ []) ∷ []
push d (t ∷ ts) = (d ∷ t) ∷ ts

-- `s.split(c)`
unfoldable pub split_on : ℕ → Text → List Text
split_on c [] = [] ∷ []
split_on c (d ∷ s) = let rest = split_on c s in if d == c then [] ∷ rest else push d rest

-- `s.split(c, maxsplit=1)`
unfoldable pub split_once : ℕ → Text → Text × Option Text
split_once c [] = ([], none)
split_once c (d ∷ s) =
    let (before, behind) = split_once c s in if d == c then ([], some s) else (d ∷ before, behind)

module _ (unquote_plus : Text → Text) where
  abbrev pub value_of : Option Text → Text
  value_of none = []
  value_of (some v) = unquote_plus v

  -- One round of the loop in `parse_querystring`.
  unfoldable pub parse_param : Text → Text × Text
  unfolding strip_char split_once
  parse_param param =
      let (name, value) = split_once b'=' (strip_char b'=' param) in
      (unquote_plus name, value_of value)

  -- `parse_querystring`
  unfoldable pub parse_querystring : Text → List (Text × Text)
  unfolding strip_char split_on parse_param
  parse_querystring s = map parse_param (split_on b'&' (strip_char b'&' s))

-- What a key can stand for: a text, a list, or a dictionary, whose items keep their order.
mutual
  pub data Value : Type 0 where
    text : Text → Value
    seq : Values → Value
    dict : Items → Value

  pub data Values : Type 0 where
    nil : Values
    cons : Value → Values → Values

  pub data Items : Type 0 where
    end : Items
    item : Text → Value → Items → Items

abbrev pub get_item : Text → Items → Option Value
get_item k end = none
get_item k (item l v d) = if text_eq k l then some v else get_item k d

abbrev pub set_item : Text → Value → Items → Items
set_item k v end = item k v end
set_item k v (item l w d) = if text_eq k l then item l v d else item l w (set_item k v d)

abbrev pub del_item : Text → Items → Items
del_item k end = end
del_item k (item l w d) = if text_eq k l then d else item l w (del_item k d)

abbrev pub keys : Items → List Text
keys end = []
keys (item k v d) = k ∷ keys d

-- `vs + ws`
abbrev pub join_values : Values → Values → Values
join_values nil ws = ws
join_values (cons v vs) ws = cons v (join_values vs ws)

abbrev pub one : Value → Values
one v = cons v nil

-- The value of an occupied key after one more: a list grows, all else becomes a list.
abbrev pub occupied : Value → Value → Value
occupied (seq vs) w = seq (join_values vs (one w))
occupied (text t) w = seq (cons (text t) (one w))
occupied (dict d) w = seq (cons (dict d) (one w))

-- One round of the loop in `parse`.
unfoldable pub add_param : Text × Text → Items → Items
add_param ([], value) d = d
add_param (c ∷ name, value) d = elim (get_item (c ∷ name) d) [
  | none ↦ set_item (c ∷ name) (text value) d
  | some v ↦ set_item (c ∷ name) (occupied v (text value)) d
]

unfoldable pub add_params : List (Text × Text) → Items → Items
unfolding add_param
add_params [] d = d
add_params (p ∷ ps) d = add_params ps (add_param p d)

-- `parse` of a new object
unfoldable pub parse : (Text → Text) → Text → Items
unfolding parse_querystring add_params
parse unquote_plus s = add_params (parse_querystring unquote_plus s) end
