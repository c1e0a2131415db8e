-- ===== src/Query.antt =====
-- The status query (apps/tracker/aio_tasks/serverquery.py): packets of backslash-separated keys
-- and values, put together and expanded. A packet is the text that Latin-1 decodes, so its code
-- points are below 256. The socket is the list of the packets that arrive, and the timeout its end.
pub mod Number
pub mod Payload
pub mod Collect
pub mod Expand
pub mod Task
pub mod Render
pub mod Order
pub mod Spoiled
pub mod Ordered
pub mod Arrival
mod Tests
use swat4stats.Base.{ℕ, Bool, List, [], ◌∷◌, ◌&&◌, leb, if◌then◌else◌, ◌==◌}
use swat4stats.Base.Text.{Text}

-- `\d`, on the code points of Latin-1
abbrev pub is_digit : ℕ → Bool
is_digit c = leb b'0' c && leb c b'9'

-- `data.split("\\")`: the part before the next backslash, and the others
abbrev pub push : ℕ → List Text → List Text
push c [] = (c ∷ []) ∷ []
push c (t ∷ ts) = (c ∷ t) ∷ ts

unfoldable pub split : Text → List Text
split [] = [] ∷ []
split (c ∷ s) = let rest = split s in if c == b'\\' then [] ∷ rest else push c rest

-- A key at an odd place and the value behind it; the last key may have none.
unfoldable pub pairs : List Text → List (Text × Text)
pairs [] = []
pairs (key ∷ []) = []
pairs (key ∷ value ∷ rest) = (key, value) ∷ pairs rest

abbrev pub tail : List Text → List Text
tail [] = []
tail (t ∷ ts) = ts

-- `_parse_status_payload`
unfoldable pub parse_status_payload : Text → List (Text × Text)
parse_status_payload raw = pairs (tail (split raw))
