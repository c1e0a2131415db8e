-- ===== src/Names.antt =====
-- Names free of text tags (apps/tracker/utils/misc.py): `force_clean_name`, `force_valid_name` and
-- `force_name`. The regular expression is written out: a tag is `[c]`, `[b]`, `[u]`, one of these
-- with a slash of either kind before the letter, or `[c`, a character that is no word character,
-- and a run without brackets up to `]`. Which characters `\w` takes for word characters is the
-- Unicode table's: `is_word` is a parameter, and nothing is assumed of it.
pub mod Match
pub mod Clean
pub mod Force
mod Tests
use swat4stats.Base.{
  ℕ, zero, suc, ◌-◌, Bool, true, false, ◌&&◌, ◌||◌, not, Option, none, some, List, [], ◌∷◌, ◌==◌,
  leb, if◌then◌else◌, length, elem,
}
use swat4stats.Base.Text.{Text}
use mathlib.Core.Option

-- `[cub]`, in either case
unfoldable pub is_cub : ℕ → Bool
is_cub c = elem c (b'c' ∷ b'u' ∷ b'b' ∷ b'C' ∷ b'U' ∷ b'B' ∷ [])

unfoldable pub is_slash : ℕ → Bool
is_slash c = c == b'\\' || c == b'/'

unfoldable pub closed_tag : ℕ → ℕ → ℕ → Text → Option Text
closed_tag a b c [] = none
closed_tag a b c (d ∷ s) = if d == b']' then some (a ∷ b ∷ c ∷ d ∷ []) else none

-- `\[[\\/]?[cub]\]` at the head of a text: the text that it matches
unfoldable pub short_tag : Text → Option Text
unfolding is_cub is_slash closed_tag
short_tag [] = none
short_tag (a ∷ []) = none
short_tag (a ∷ b ∷ []) = none
short_tag (a ∷ b ∷ c ∷ s) =
    if a == b'[' && is_cub b && c == b']'
    then some (a ∷ b ∷ c ∷ [])
    else if a == b'[' && is_slash b && is_cub c
    then closed_tag a b c s
    else none

-- `[^\[\]]*?\]`
unfoldable pub until_bracket : Text → Option Text
until_bracket [] = none
until_bracket (c ∷ s) =
    let rest = Option.map (λ m. c ∷ m) (until_bracket s) in
    if c == b']' then some (c ∷ []) else if c == b'[' then none else rest

-- `str.strip` takes these for white space.
unfoldable pub is_space : ℕ → Bool
is_space c =
    leb 9 c && leb c 13
    || leb 28 c && leb c 32
    || elem c (133 ∷ 160 ∷ 5760 ∷ [])
    || leb 8192 c && leb c 8202
    || elem c (8232 ∷ 8233 ∷ 8239 ∷ 8287 ∷ 12288 ∷ [])

unfoldable pub lstrip : Text → Text
lstrip [] = []
lstrip (c ∷ s) = if is_space c then lstrip s else c ∷ s

unfoldable pub rstrip_head : ℕ → Text → Text
rstrip_head c [] = if is_space c then [] else c ∷ []
rstrip_head c (d ∷ s) = c ∷ d ∷ s

unfoldable pub rstrip : Text → Text
rstrip [] = []
rstrip (c ∷ s) = rstrip_head c (rstrip s)

unfoldable pub strip : Text → Text
unfolding lstrip rstrip rstrip_head is_space
strip s = rstrip (lstrip s)

unfoldable pub starts_with : Text → Text → Bool
starts_with [] s = true
starts_with (x ∷ m) [] = false
starts_with (x ∷ m) (c ∷ s) = x == c && starts_with m s

-- `name.replace(m, "")` for a text `m` that is not empty; the number counts the characters of an
-- occurrence that are still to be left out.
unfoldable pub remove : Text → ℕ → Text → Text
remove m k [] = []
remove m (suc k) (c ∷ s) = remove m k s
remove m zero (c ∷ s) = elim (starts_with m (c ∷ s)) [
  | true ↦ remove m (length m - 1) s
  | false ↦ c ∷ remove m 0 s
]

module _ (is_word : ℕ → Bool) where
  -- `\[c[^\w][^\[\]]*?\]` at the head of a text
  unfoldable pub long_tag : Text → Option Text
  unfolding until_bracket
  long_tag [] = none
  long_tag (a ∷ []) = none
  long_tag (a ∷ b ∷ []) = none
  long_tag (a ∷ b ∷ c ∷ s) =
      if a == b'[' && (b == b'c' || b == b'C') && not (is_word c)
      then Option.map (λ m. a ∷ b ∷ c ∷ m) (until_bracket s)
      else none

  -- The pattern at the head of a text: its first alternative goes first.
  unfoldable pub tag_at : Text → Option Text
  tag_at s = elim (short_tag s) [ some m ↦ some m | none ↦ long_tag s ]

  -- `pattern.search(name)`: the leftmost match
  unfoldable pub find_tag : Text → Option Text
  find_tag [] = none
  find_tag (c ∷ s) = elim (tag_at (c ∷ s)) [ some m ↦ some m | none ↦ find_tag s ]

  -- The loop of `force_clean_name`, on fuel.
  unfoldable pub drop_tags : ℕ → Text → Text
  drop_tags zero s = s
  drop_tags (suc fuel) s = elim (find_tag s) [ none ↦ s | some m ↦ drop_tags fuel (remove m 0 s) ]

  unfoldable pub force_clean_name : Text → Text
  force_clean_name s = strip (drop_tags (length s) s)
