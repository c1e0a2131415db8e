-- ===== src/Geo/Whois.antt =====
-- `_query_ip_address`: what is taken from a whois answer, and the answers that are refused.
use swat4stats.Base.{
  ℕ, ◌+◌, ◌≤◌, ◌≡◌, Bool, ◌&&◌, ◌||◌, not, Option, none, some, List, [], ◌∷◌, arith, ◌==◌,
  if◌then◌else◌, leb, take, map,
}
use swat4stats.Base.Text.{Text}
use swat4stats.Names.{strip}

-- One part of a `cidr` text, between commas.
pub data Part : Type 0 where
  blank : Part
  malformed : Part
  network : ℕ → ℕ → Part

-- The entries of a network that are read; `cidr` has more parts than one if it has a comma.
pub record Net : Type 0 where
  pub cidr : List Part
  pub description : Option Text
  pub country : Option Text

-- `WhoisQueryResult`, with the ends of the network
pub record WhoisQueryResult : Type 0 where
  pub description : Option Text
  pub country : Option Text
  pub first : ℕ
  pub last : ℕ

-- The `ipwhois` package: the name of a reserved network, and the networks of an answer, where the
-- lookup does not raise.
pub record Ipwhois : Type 0 where
  pub ipv4_is_defined : ℕ → Option Text
  pub lookup_whois : ℕ → Option (List Net)

-- where `splitlines` ends a line
abbrev pub is_line_break : ℕ → Bool
is_line_break c = leb 10 c && leb c 13 || leb 28 c && leb c 30 || c == 133 || c == 8232 || c == 8233

unfoldable pub first_line : Text → Text
first_line [] = []
first_line (c ∷ s) = if is_line_break c then [] else c ∷ first_line s

-- `description.splitlines()[0][:255]`, for a text that is not empty
unfoldable pub cut_description : Text → Option Text
cut_description [] = none
cut_description (c ∷ s) = some (take 255 (first_line (c ∷ s)))

unfoldable pub format_network_description : Text → Option Text
format_network_description raw = cut_description (strip raw)

-- `if net_description := …`, where an empty text counts as missing
unfoldable pub described : Option Text → Option Text
described none = none
described (some []) = none
described (some (c ∷ s)) = format_network_description (c ∷ s)

-- `net_country.lower()`, on the letters of country codes
abbrev pub lower : ℕ → ℕ
lower c = if leb 65 c && leb c 90 then 32 + c else c

unfoldable pub country_of : Option Text → Option Text
country_of none = none
country_of (some []) = none
country_of (some (c ∷ s)) = some (map lower (c ∷ s))

abbrev pub within : ℕ → ℕ → ℕ → Bool
within ip a b = leb a ip && leb ip b

-- The first network of the list with the address; a malformed part before it raises.
unfoldable pub pick_proper_cidr_from_list : ℕ → List Part → Option (ℕ × ℕ)
pick_proper_cidr_from_list ip [] = none
pick_proper_cidr_from_list ip (blank ∷ ps) = pick_proper_cidr_from_list ip ps
pick_proper_cidr_from_list ip (malformed ∷ ps) = none
pick_proper_cidr_from_list ip (network a b ∷ ps) =
    if within ip a b then some (a, b) else pick_proper_cidr_from_list ip ps

-- `if "," in network_data["cidr"]`; a single part has to be a network.
unfoldable pub pick_cidr : ℕ → List Part → Option (ℕ × ℕ)
pick_cidr ip [] = none
pick_cidr ip (network a b ∷ []) = some (a, b)
pick_cidr ip (blank ∷ []) = none
pick_cidr ip (malformed ∷ []) = none
pick_cidr ip (p ∷ q ∷ ps) = pick_proper_cidr_from_list ip (p ∷ q ∷ ps)

-- The checks of the range, and the result.
unfoldable pub checked : ℕ → Net → Option (ℕ × ℕ) → Option WhoisQueryResult
checked ip net none = none
checked ip net (some (a, b)) =
    if not (leb a b)
    then none
    else if not (within ip a b)
    then none
    else some record {
      description = described net.description;
      country = country_of net.country;
      first = a;
      last = b;
    }

unfoldable pub read_nets : ℕ → Option (List Net) → Option WhoisQueryResult
read_nets ip none = none
read_nets ip (some []) = none
read_nets ip (some (net ∷ nets)) = checked ip net (pick_cidr ip net.cidr)

-- `if is_defined`: the address alone.
unfoldable pub query_defined : Ipwhois → ℕ → Option Text → Option WhoisQueryResult
query_defined whois ip (some name) =
    some record { description = some name; country = none; first = ip; last = ip }
query_defined whois ip none = read_nets ip (whois.lookup_whois ip)

unfoldable pub query_ip_address : Ipwhois → ℕ → Option WhoisQueryResult
query_ip_address whois ip = query_defined whois ip (whois.ipv4_is_defined ip)

checked-within :
    (ip : ℕ) (net : Net) (o : Option (ℕ × ℕ)) (r : WhoisQueryResult)
    → checked ip net o ≡ some r
    → (r.first ≤ ip) × (ip ≤ r.last)
unfolding checked
checked-within ip net none r e = cc
checked-within ip net (some (a, b)) r e = ground arith

-- An answer that is not refused is a range that contains the address, for any whois package.
pub query_ip_address-within :
    (whois : Ipwhois) (ip : ℕ) (r : WhoisQueryResult)
    → query_ip_address whois ip ≡ some r
    → (r.first ≤ ip) × (ip ≤ r.last)
unfolding query_ip_address query_defined read_nets
query_ip_address-within whois ip r e = defined (whois.ipv4_is_defined ip) e
  where
    nets : (o : Option (List Net)) → read_nets ip o ≡ some r → (r.first ≤ ip) × (ip ≤ r.last)
    nets none e = cc
    nets (some []) e = cc
    nets (some (net ∷ rest)) e = checked-within ip net (pick_cidr ip net.cidr) r e

    defined : (o : Option Text) → query_defined whois ip o ≡ some r → (r.first ≤ ip) × (ip ≤ r.last)
    defined none e = nets (whois.lookup_whois ip) e
    defined (some name) e = ground arith
