-- ===== src/Query/Number.antt =====
-- `int(text)`: white space around it, a sign, and digits with single underscores between them.
use swat4stats.Base.{
  ℕ, zero, suc, ◌+◌, ◌-◌, ◌*◌, Bool, true, false, ◌&&◌, not, Option, none, some, [], ◌∷◌, ◌==◌,
  if◌then◌else◌,
}
use swat4stats.Base.Int.{ℤ, pos, negsuc}
use swat4stats.Base.Text.{Text}
use swat4stats.Names.{strip}
use swat4stats.Query.{is_digit}
use mathlib.Core.Option

-- The next character: the flag says that a digit is needed.
unfoldable pub next_digit : Bool → ℕ → ℕ → Option (Bool × ℕ)
next_digit wanted n c =
    if is_digit c
    then some (false, n * 10 + (c - b'0'))
    else if c == b'_' && not wanted
    then some (true, n)
    else none

unfoldable pub digits : Bool → ℕ → Text → Option ℕ
digits true n [] = none
digits false n [] = some n
digits wanted n (c ∷ s) = elim (next_digit wanted n c) [ none ↦ none | some (w, m) ↦ digits w m s ]

-- an underscore is not the first character
unfoldable pub unsigned : Text → Option ℕ
unsigned [] = none
unsigned (c ∷ s) = if is_digit c then digits true 0 (c ∷ s) else none

abbrev pub negate : ℕ → ℤ
negate zero = pos 0
negate (suc n) = negsuc n

unfoldable pub signed : Text → Option ℤ
signed [] = none
signed (c ∷ s) =
    if c == b'-'
    then Option.map negate (unsigned s)
    else if c == b'+'
    then Option.map pos (unsigned s)
    else Option.map pos (unsigned (c ∷ s))

-- none stands for `ValueError`
unfoldable pub parse_int : Text → Option ℤ
parse_int s = signed (strip s)
