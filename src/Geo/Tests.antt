-- ===== src/Geo/Tests.antt =====
-- An address that a whois answer adds a range for, and its second lookup.
use swat4stats.Base.{◌≤◌, ◌≡◌, refl, true, none, some, [], ◌∷◌}
use swat4stats.Base.Text.{codes}
use swat4stats.Geo.{Ip, Isp, Geo, covers, range_length}
use swat4stats.Geo.Whois.{
  Net, blank, network, Ipwhois, WhoisQueryResult, query_ip_address, query_defined, read_nets,
  checked, pick_cidr, pick_proper_cidr_from_list, described, country_of, format_network_description,
  cut_description, first_line, query_ip_address-within,
}
use swat4stats.Geo.Match.{
  smallest, match, answered, match_or_create, accept, look_up, store_network, add_isp, add_named,
  add_created, same_ends, same_isp, same_text, IsSmallest, smallest-IsSmallest, closer,
}
use swat4stats.Geo.Again.{again, match_or_create-again}
use swat4stats.Names.{strip, lstrip, rstrip, rstrip_head, is_space}

abbrev net : Net
net = record {
  cidr = blank ∷ network 100 199 ∷ [];
  description = some (codes " Some Provider\nStreet 1 ");
  country = some (codes "UK");
}

abbrev whois : Ipwhois
whois = record { ipv4_is_defined = λ _. none; lookup_whois = λ _. some (net ∷ []) }

abbrev broad : Ip
broad = record { pk = 1; isp = some 1; range_from = 0; range_to = 8000000 }

abbrev provider : Isp
provider = record { pk = 1; name = some (codes "Broad"); country = none }

abbrev geo : Geo
geo = record { ips = broad ∷ []; isps = provider ∷ []; next_ip = 2; next_isp = 2 }

abbrev result : WhoisQueryResult
result = record {
  description = some (codes "Some Provider");
  country = some (codes "uk");
  first = 100;
  last = 199;
}

query_150 : query_ip_address whois 150 ≡ some result
unfolding query_ip_address query_defined read_nets checked pick_cidr pick_proper_cidr_from_list
    described country_of format_network_description cut_description first_line strip lstrip rstrip
    rstrip_head is_space
query_150 = refl

query_ip_address-within_example : (100 ≤ 150) × (150 ≤ 199)
query_ip_address-within_example = query_ip_address-within whois 150 result query_150

created_150 : (match_or_create whois 150 geo).0 ≡ answered (some 2) true
unfolding query_ip_address query_defined read_nets checked pick_cidr pick_proper_cidr_from_list
    described country_of format_network_description cut_description first_line strip lstrip rstrip
    rstrip_head is_space match_or_create match smallest closer covers range_length accept look_up
    store_network same_ends add_isp add_named add_created same_isp same_text
created_150 = refl

smallest-IsSmallest_example : IsSmallest 150 (broad ∷ []) (smallest 150 (broad ∷ []))
smallest-IsSmallest_example = smallest-IsSmallest 150 (broad ∷ [])

match_or_create-again_example :
    match_or_create whois 150 (match_or_create whois 150 geo).1
    ≡ (again (match_or_create whois 150 geo).0, (match_or_create whois 150 geo).1)
match_or_create-again_example = match_or_create-again whois 150 geo
