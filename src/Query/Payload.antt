-- ===== src/Query/Payload.antt =====
-- `_normalize_status_packet`: the text between the number of a `statusresponse` and the `eof`.
use swat4stats.Base.{Option, none, some, [], ◌∷◌, ◌++◌, ◌==◌, if◌then◌else◌}
use swat4stats.Base.Text.{Text, codes, text_eq}
use swat4stats.Query.{is_digit}

-- The text behind a prefix.
unfoldable pub after : Text → Text → Option Text
after [] s = some s
after (p ∷ ps) [] = none
after (p ∷ ps) (c ∷ s) = if p == c then after ps s else none

-- `\d+`, as far as it goes, and the rest
unfoldable pub span_digits : Text → Text × Text
span_digits [] = ([], [])
span_digits (c ∷ s) =
    let (ds, rest) = span_digits s in if is_digit c then (c ∷ ds, rest) else ([], c ∷ s)

abbrev pub eof : Text
eof = codes "\\eof\\"

-- `(.+)\\eof\\$` without the demand for a character: the group, and the line break that `$` may
-- leave behind it. The dot matches no line break.
unfoldable pub until_eof : Text → Option (Text × Text)
until_eof [] = none
until_eof (c ∷ s) =
    let rest = until_eof s in
    if text_eq (c ∷ s) eof
    then some ([], [])
    else if text_eq (c ∷ s) (eof ++ 10 ∷ [])
    then some ([], 10 ∷ [])
    else if c == 10
    then none
    else elim rest [ none ↦ none | some (group, end) ↦ some (c ∷ group, end) ]

abbrev pub last_digit : Text → Text
last_digit [] = []
last_digit (d ∷ []) = d ∷ []
last_digit (d ∷ e ∷ ds) = last_digit (e ∷ ds)

-- The substitution: where nothing stands between number and `eof`, the last of several digits is
-- the group.
unfoldable pub replacement : Text → Option (Text × Text) → Option Text
replacement [] o = none
replacement (d ∷ ds) none = none
replacement (d ∷ ds) (some (c ∷ group, end)) = some ((c ∷ group) ++ end)
replacement (d ∷ []) (some ([], end)) = none
replacement (d ∷ e ∷ ds) (some ([], end)) = some (last_digit (e ∷ ds) ++ end)

unfoldable pub normalized : Text → Option Text → Text
normalized raw none = raw
normalized raw (some rest) =
    let (ds, body) = span_digits rest in
    elim (replacement ds (until_eof body)) [ none ↦ raw | some t ↦ t ]

unfoldable pub normalize_status_packet : Text → Text
normalize_status_packet raw = normalized raw (after (codes "\\statusresponse\\") raw)
