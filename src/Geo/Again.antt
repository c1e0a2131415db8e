-- ===== src/Geo/Again.antt =====
-- A second lookup of an address, with the same whois answers, is settled by what the first stored.
use swat4stats.Base.{
  ℕ, ==_refl, ◌+◌, ◌≡◌, refl, inl, inr, Bool, true, false, Option, none, some, List, [], ◌∷◌, ◌++◌,
  arith, ◌==◌, if◌then◌else◌, ltb, leb, Option-cases, Bool-cases,
}
use swat4stats.Base.Text.{Text}
use swat4stats.Base.Table.{find?, find?-append_none, count_where}
use swat4stats.Geo.{Ip, Isp, Geo, range_length, covers, accepted_length}
use swat4stats.Geo.Whois.{Ipwhois, WhoisQueryResult, query_ip_address, query_ip_address-within}
use swat4stats.Geo.Match.{
  smallest, closer, match, Answer, answered, multiple_objects, same_ends, same_isp, add_range,
  create_isp, add_created, add_found, add_named, add_isp, store_network, look_up, accept,
  match_or_create,
}

-- the row that a new range makes
abbrev pub range_row : WhoisQueryResult → ℕ → ℕ → Ip
range_row net pk isp = record {
  pk = pk;
  isp = some isp;
  range_from = net.first;
  range_to = net.last;
}

-- The tables with the new range, whatever became of the providers.
abbrev pub with_range : WhoisQueryResult → ℕ → List Isp → ℕ → Geo → Geo
with_range net isp isps next geo = record {
  ips = geo.ips ++ range_row net geo.next_ip isp ∷ [];
  isps = isps;
  next_ip = geo.next_ip + 1;
  next_isp = next;
}

-- The two outcomes of a network that is stored: it is refused, or its range is added.
data Stored (net : WhoisQueryResult) (geo : Geo) : Answer × Geo → Type 0 where
  refused : Stored net geo (multiple_objects, geo)
  added :
      (isp : ℕ) (b : Bool) (isps : List Isp) (next : ℕ)
      → Stored net geo (answered (some isp) b, with_range net isp isps next geo)

add_isp-Stored :
    (net : WhoisQueryResult) (name country : Option Text) (geo : Geo)
    → Stored net geo (add_isp net name country geo)
unfolding add_isp add_named add_found add_created add_range create_isp
add_isp-Stored net none country geo = added geo.next_isp true _ _
add_isp-Stored net (some name) country geo = named (find? (same_isp name country) geo.isps)
  where
    found : (i : Isp) (b : Bool) → Stored net geo (add_found net b i geo)
    found i true = added i.pk false geo.isps geo.next_isp
    found i false = refused

    named : (o : Option Isp) → Stored net geo (add_named net name country o geo)
    named none = added geo.next_isp true _ _
    named (some i) = found i (count_where (same_isp name country) geo.isps == 1)

-- the row that is chosen when one more is added at the end
abbrev pub further : Option Ip → Ip → Ip
further none r = r
further (some s) r = if leb (range_length s) (range_length r) then s else r

closer-further :
    (s r : Ip) (o : Option Ip) → closer s (some (further o r)) ≡ some (further (closer s o) r)
unfolding closer
closer-further s r none = ground arith
closer-further s r (some t) = ground arith

smallest-append :
    (ip : ℕ) (rows : List Ip) (r : Ip)
    → covers ip r ≡ true
    → smallest ip (rows ++ r ∷ []) ≡ some (further (smallest ip rows) r)
unfolding smallest closer
smallest-append ip [] r q = rw q refl
smallest-append ip (s ∷ rows) r q = elim (Bool-cases (covers ip s)) [
  | inl c ↦ rw (c, smallest-append ip rows r q, closer-further) refl
  | inr c ↦ rw c (smallest-append ip rows r q)
]

-- The first lookup of the tables had no narrow range.
abbrev pub IsBroad : Option Ip → Type 0
IsBroad none = Unit
IsBroad (some r) = ltb accepted_length (range_length r) ≡ true

module _ (net : WhoisQueryResult) (isp : ℕ) (isps : List Isp) (next : ℕ) (geo : Geo) where
  abbrev after : Geo
  after = with_range net isp isps next geo

  abbrev new : Ip
  new = range_row net geo.next_ip isp

  stored_again :
      find? (same_ends net) geo.ips ≡ none
      → (fallback : Option ℕ)
      → look_up (some net) fallback after ≡ (answered (some isp) false, after)
  unfolding look_up store_network same_ends
  stored_again n fallback =
      rw (find?-append_none (same_ends net) geo.ips (new ∷ []) n)
        (rw (==_refl net.first, ==_refl net.last) refl)

  narrow :
      (o : Option Ip)
      → IsBroad o
      → find? (same_ends net) geo.ips ≡ none
      → accept (some net) (some ((further o new).isp, range_length (further o new))) after
        ≡ (answered (some isp) false, after)
  unfolding accept
  narrow none b n = ground (arith, stored_again n (some isp))
  narrow (some s) b n = ground (arith, b, stored_again n (some isp), stored_again n s.isp)

  found_again :
      (ip : ℕ)
      → IsBroad (smallest ip geo.ips)
      → covers ip new ≡ true
      → find? (same_ends net) geo.ips ≡ none
      → accept (some net) (match ip after) after ≡ (answered (some isp) false, after)
  unfolding match
  found_again ip b c n = rw (smallest-append ip geo.ips new c) (narrow (smallest ip geo.ips) b n)

-- what a second lookup answers after the first: the same, and nothing is created
abbrev pub again : Answer → Answer
again (answered isp b) = answered isp false
again multiple_objects = multiple_objects

module _ (whois : Ipwhois) (ip : ℕ) (geo : Geo) where
  -- How a lookup can end.
  data Settled : Answer × Geo → Type 0 where
    same : (a : Answer) → again a ≡ a → Settled (a, geo)
    extended :
        (net : WhoisQueryResult) (isp : ℕ) (b : Bool) (isps : List Isp) (next : ℕ)
        → query_ip_address whois ip ≡ some net
        → find? (same_ends net) geo.ips ≡ none
        → IsBroad (smallest ip geo.ips)
        → Settled (answered (some isp) b, with_range net isp isps next geo)

  ending_of :
      (net : WhoisQueryResult) (res : Answer × Geo)
      → query_ip_address whois ip ≡ some net
      → find? (same_ends net) geo.ips ≡ none
      → IsBroad (smallest ip geo.ips)
      → Stored net geo res
      → Settled res
  ending_of net _ q n b refused = same multiple_objects refl
  ending_of net _ q n b (added isp f isps next) = extended net isp f isps next q n b

  look_up_ending :
      (o : Option WhoisQueryResult) (fallback : Option ℕ)
      → query_ip_address whois ip ≡ o
      → IsBroad (smallest ip geo.ips)
      → Settled (look_up o fallback geo)
  unfolding look_up store_network
  look_up_ending none fallback q b = same (answered fallback false) refl
  look_up_ending (some net) fallback q b = elim (Option-cases (find? (same_ends net) geo.ips)) [
    | inl n ↦ rw n (ending_of net _ q n b (add_isp-Stored net _ _ geo))
    | inr (r, f) ↦ rw f (same (answered r.isp false) refl)
  ]

  ending : Settled (match_or_create whois ip geo)
  unfolding match_or_create match accept
  ending = elim (Option-cases (smallest ip geo.ips)) [
    | inl n ↦ rw n (look_up_ending (query_ip_address whois ip) none refl (rw n tt))
    | inr (r, f) ↦ elim (Bool-cases (ltb accepted_length (range_length r))) [
      | inl b ↦ rw (f, b) (look_up_ending (query_ip_address whois ip) r.isp refl (rw f b))
      | inr b ↦ rw (f, b) (same (answered r.isp false) refl)
    ]
  ]

  range_covers :
      (net : WhoisQueryResult) (pk isp : ℕ)
      → query_ip_address whois ip ≡ some net
      → covers ip (range_row net pk isp) ≡ true
  unfolding covers
  range_covers net pk isp q = ground (arith, query_ip_address-within whois ip net q)

  ending_again :
      (res : Answer × Geo)
      → Settled res
      → match_or_create whois ip geo ≡ res
      → match_or_create whois ip res.1 ≡ (again res.0, res.1)
  unfolding match_or_create
  ending_again _ (same a s) e = rw s e
  ending_again _ (extended net isp f isps next q n b) e =
      rw q (found_again net isp isps next geo ip b (range_covers net geo.next_ip isp q) n)

  -- Looking an address up once more, with the same whois answers, gives the provider of the first
  -- lookup, creates nothing and leaves the tables as the first lookup left them.
  pub match_or_create-again :
      let (answer, after) = match_or_create whois ip geo in
      match_or_create whois ip after ≡ (again answer, after)
  match_or_create-again = ending_again (match_or_create whois ip geo) ending refl
