-- ===== src/Query/Collect.antt =====
-- `_collect_status_payload`: the packets in the order of their numbers, once all are there.
use swat4stats.Base.{
  Bool, true, false, ◌&&◌, ◌||◌, not, Option, none, some, List, [], ◌∷◌, ◌++◌, if◌then◌else◌,
  length, is_none,
}
use swat4stats.Base.Int.{ℤ, pos, ◌+ℤ◌, ltb_ℤ, leb_ℤ}
use swat4stats.Base.Sort.{sorted}
use swat4stats.Base.Text.{Text, codes, text_eq}
use swat4stats.Query.{parse_status_payload}
use swat4stats.Query.Number.{parse_int}
use swat4stats.Query.Payload.{normalize_status_packet}

abbrev pub eq_ℤ : ℤ → ℤ → Bool
eq_ℤ a b = leb_ℤ a b && leb_ℤ b a

-- `order = int(value)`, which is 1 on `ValueError`; `statusresponse` counts from 0.
unfoldable pub order_of : Bool → Option ℤ → ℤ
order_of zero_based none = pos 1
order_of true (some n) = n +ℤ pos 1
order_of false (some n) = n

-- One round of the loop over the pairs: the order, and whether the packet is the final one.
unfoldable pub read_param : Option ℤ × Bool → Text × Text → Option ℤ × Bool
read_param (order, is_final) (param, value) =
    if is_none order && (text_eq param (codes "statusresponse") || text_eq param (codes "queryid"))
    then (some (order_of (text_eq param (codes "statusresponse")) (parse_int value)), is_final)
    else if text_eq param (codes "final")
    then (order, true)
    else (order, is_final)

unfoldable pub read_params : Option ℤ × Bool → List (Text × Text) → Option ℤ × Bool
read_params state [] = state
read_params state (p ∷ ps) = read_params (read_param state p) ps

-- `ordered[order] = packet`
unfoldable pub put : ℤ → Text → List (ℤ × Text) → List (ℤ × Text)
put k t [] = (k, t) ∷ []
put k t ((j, u) ∷ rest) = if eq_ℤ j k then (j, t) ∷ rest else (j, u) ∷ put k t rest

-- The outcome: the payload, `ResponseIncompleteError` or `ResponseMalformedError`.
pub data Collected : Type 0 where
  payload : Text → Collected
  incomplete : Collected
  malformed : Collected

unfoldable pub join : List (ℤ × Text) → Text
join [] = []
join ((k, t) ∷ rest) = normalize_status_packet t ++ join rest

abbrev pub order_before : ℤ × Text → ℤ × Text → Bool
order_before (j, t) (k, u) = ltb_ℤ j k

-- `if not count or count != len(ordered)`, and the sorted packets
unfoldable pub finish : Option ℤ → List (ℤ × Text) → Collected
finish none ordered = incomplete
finish (some count) ordered =
    if eq_ℤ count (pos 0) || not (eq_ℤ count (pos (length ordered)))
    then incomplete
    else payload (join (sorted order_before ordered))

-- The packet's place in the dictionary, where its order is known.
unfoldable pub place :
    Option ℤ → Option ℤ × Bool → Text → List (ℤ × Text) → Option (Option ℤ × List (ℤ × Text))
place count (none, is_final) packet ordered = none
place count (some order, is_final) packet ordered =
    some ((if is_final then some order else count), put order packet ordered)

unfoldable pub collect : Option ℤ → List (ℤ × Text) → List Text → Collected
collect count ordered [] = finish count ordered
collect count ordered (packet ∷ packets) =
    elim (place count (read_params (none, false) (parse_status_payload packet)) packet ordered) [
      | none ↦ malformed
      | some (count', ordered') ↦ collect count' ordered' packets
    ]

unfoldable pub collect_status_payload : List Text → Collected
collect_status_payload packets = collect none [] packets
