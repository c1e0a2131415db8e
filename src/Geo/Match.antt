-- ===== src/Geo/Match.antt =====
-- `ISPManager.match` and `match_or_create`.
use swat4stats.Base.{
  ℕ, ◌+◌, ◌≤◌, ◌≡◌, inl, inr, Bool, true, false, ◌&&◌, Option, none, some, List, [], ◌∷◌, ◌++◌,
  arith, ◌==◌, if◌then◌else◌, ltb, leb, Bool-cases, All, All-map,
}
use swat4stats.Base.Text.{Text, text_eq}
use swat4stats.Base.Table.{find?, count_where, exists}
use swat4stats.Geo.{Ip, Isp, Geo, range_length, covers, accepted_length}
use swat4stats.Geo.Whois.{Ipwhois, WhoisQueryResult, query_ip_address}
use mathlib.Core.Option

-- of two ranges the one that the ordering by `length` puts first
unfoldable pub closer : Ip → Option Ip → Option Ip
closer r none = some r
closer r (some s) = if leb (range_length r) (range_length s) then some r else some s

-- the first row of those that cover the address, ordered by `length`
unfoldable pub smallest : ℕ → List Ip → Option Ip
smallest ip [] = none
smallest ip (r ∷ rs) = let rest = smallest ip rs in if covers ip r then closer r rest else rest

-- `match`: the provider and the length of its range
unfoldable pub match : ℕ → Geo → Option (Option ℕ × ℕ)
match ip geo = Option.map (λ (r : Ip). (r.isp, range_length r)) (smallest ip geo.ips)

-- The object and the flag that the call returns, or the exception that more rows than one fit.
pub data Answer : Type 0 where
  answered : Option ℕ → Bool → Answer
  multiple_objects : Answer

unfoldable pub same_ends : WhoisQueryResult → Ip → Bool
same_ends net r = r.range_from == net.first && r.range_to == net.last

-- `if network_data.description: …`, also for the country
abbrev pub non_empty : Option Text → Option Text
non_empty none = none
non_empty (some []) = none
non_empty (some (c ∷ s)) = some (c ∷ s)

unfoldable pub same_text : Option Text → Option Text → Bool
same_text none none = true
same_text none (some t) = false
same_text (some s) none = false
same_text (some s) (some t) = text_eq s t

-- The filter of the provider's lookup: a missing country has to be missing in the row.
unfoldable pub same_isp : Text → Option Text → Isp → Bool
same_isp name country i = same_text i.name (some name) && same_text i.country country

-- `isp.ip_set.add(ip_obj)` on the range that was created
unfoldable pub add_range : WhoisQueryResult → ℕ → Geo → Geo
add_range net isp geo = record geo {
  ips =
      geo.ips
      ++ record { pk = geo.next_ip; isp = some isp; range_from = net.first; range_to = net.last }
        ∷ [];
  next_ip = geo.next_ip + 1;
}

unfoldable pub create_isp : Option Text → Option Text → Geo → Geo
create_isp name country geo = record geo {
  isps = geo.isps ++ record { pk = geo.next_isp; name = name; country = country } ∷ [];
  next_isp = geo.next_isp + 1;
}

-- A new provider for the range.
unfoldable pub add_created : WhoisQueryResult → Option Text → Option Text → Geo → Answer × Geo
add_created net name country geo =
    (answered (some geo.next_isp) true, add_range net geo.next_isp (create_isp name country geo))

-- The lookup found `isp`, which more rows than one of the table may fit.
unfoldable pub add_found : WhoisQueryResult → Bool → Isp → Geo → Answer × Geo
add_found net true isp geo = (answered (some isp.pk) false, add_range net isp.pk geo)
add_found net false isp geo = (multiple_objects, geo)

-- `get_or_create` of the provider by name and country
unfoldable pub add_named : WhoisQueryResult → Text → Option Text → Option Isp → Geo → Answer × Geo
add_named net name country none geo = add_created net (some name) country geo
add_named net name country (some isp) geo =
    add_found net (count_where (same_isp name country) geo.isps == 1) isp geo

-- The provider of a range that was created: without a name a new one, else one with the name.
unfoldable pub add_isp : WhoisQueryResult → Option Text → Option Text → Geo → Answer × Geo
add_isp net none country geo = add_created net none country geo
add_isp net (some name) country geo =
    add_named net name country (find? (same_isp name country) geo.isps) geo

-- The atomic block: `get_or_create` of the range, where an exception takes its row back.
unfoldable pub store_network : WhoisQueryResult → Option Ip → Geo → Answer × Geo
store_network net (some r) geo = (answered r.isp false, geo)
store_network net none geo = add_isp net (non_empty net.description) (non_empty net.country) geo

unfoldable pub look_up : Option WhoisQueryResult → Option ℕ → Geo → Answer × Geo
look_up none fallback geo = (answered fallback false, geo)
look_up (some net) fallback geo = store_network net (find? (same_ends net) geo.ips) geo

-- The lookup in the tables, and whether its range is narrow enough.
unfoldable pub accept : Option WhoisQueryResult → Option (Option ℕ × ℕ) → Geo → Answer × Geo
accept net none geo = look_up net none geo
accept net (some (isp, n)) geo =
    if ltb accepted_length n then look_up net isp geo else (answered isp false, geo)

-- `match_or_create`; the whois query is only used where the code makes it.
unfoldable pub match_or_create : Ipwhois → ℕ → Geo → Answer × Geo
match_or_create whois ip geo = accept (query_ip_address whois ip) (match ip geo) geo

-- What the lookup promises of its row: it is one of the table, covers the address, and no row that
-- covers the address is shorter; and where there is no row, none covers the address.
abbrev pub IsSmallest : ℕ → List Ip → Option Ip → Type 0
IsSmallest ip rows none = All (λ s. covers ip s ≡ false) rows
IsSmallest ip rows (some r) =
    ((t : Ip → Bool) → t r ≡ true → exists t rows ≡ true)
    × (covers ip r ≡ true)
    × All (λ s. covers ip s ≡ true → range_length r ≤ range_length s) rows

skip :
    (ip : ℕ) (s : Ip) (rows : List Ip) (o : Option Ip)
    → covers ip s ≡ false
    → IsSmallest ip rows o
    → IsSmallest ip (s ∷ rows) o
skip ip s rows none q h = (q, h)
skip ip s rows (some r) q h =
    ((λ t e. ground (arith, h.0 t e)), h.1, ((λ c. absurd (ground (arith, c, q))), h.2))

prefer :
    (ip : ℕ) (s : Ip) (rows : List Ip) (o : Option Ip)
    → covers ip s ≡ true
    → IsSmallest ip rows o
    → IsSmallest ip (s ∷ rows) (closer s o)
unfolding closer
prefer ip s rows none q h = (
  (λ t e. ground (arith, e)),
  q,
  ((λ c. omega arith), All-map (λ x n c. absurd (ground (arith, n, c))) rows h),
)
prefer ip s rows (some r) q h = elim (Bool-cases (leb (range_length s) (range_length r))) [
  | inl c ↦ rw c (
    (λ t e. ground (arith, e)),
    q,
    ((λ _. omega arith), All-map (λ x n k. ground (arith, n k, c)) rows h.2),
  )
  | inr c ↦ rw c ((λ t e. ground (arith, h.0 t e)), h.1, ((λ _. ground (arith, c)), h.2))
]

-- The row that the lookup takes is a row that covers the address, of the smallest length; it takes
-- none only where no row covers the address.
pub smallest-IsSmallest : (ip : ℕ) (rows : List Ip) → IsSmallest ip rows (smallest ip rows)
unfolding smallest
smallest-IsSmallest ip [] = tt
smallest-IsSmallest ip (r ∷ rows) = elim (Bool-cases (covers ip r)) [
  | inl q ↦ rw q (prefer ip r rows (smallest ip rows) q (smallest-IsSmallest ip rows))
  | inr q ↦ rw q (skip ip r rows (smallest ip rows) q (smallest-IsSmallest ip rows))
]
