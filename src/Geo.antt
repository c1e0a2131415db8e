-- ===== src/Geo.antt =====
-- Address ranges and providers (apps/geoip): the tables, the lookup of an address and what is
-- stored of a whois answer. Addresses are numbers. The `ipwhois` package is the argument `whois` of
-- the operations; the parsing of networks by `ipaddress` is taken as done, so that a part of a
-- `cidr` text is blank, malformed or a network.
pub mod Whois
pub mod Match
pub mod Again
mod Tests
use swat4stats.Base.{ℕ, ◌-◌, Bool, ◌&&◌, Option, List, if◌then◌else◌, ltb, leb}
use swat4stats.Base.Text.{Text}

-- A range of addresses, with its provider.
pub record Ip : Type 0 where
  pub pk : ℕ
  pub isp : Option ℕ
  pub range_from : ℕ
  pub range_to : ℕ

pub record Isp : Type 0 where
  pub pk : ℕ
  pub name : Option Text
  pub country : Option Text

pub record Geo : Type 0 where
  pub ips : List Ip
  pub isps : List Isp
  pub next_ip : ℕ
  pub next_isp : ℕ

-- The annotation `length` of the manager's rows.
unfoldable pub range_length : Ip → ℕ
range_length r = if ltb 1 r.range_to then r.range_to - r.range_from else 0

-- `filter(range_from__lte=ip, range_to__gte=ip)`
unfoldable pub covers : ℕ → Ip → Bool
covers ip r = leb r.range_from ip && leb ip r.range_to

-- `GEOIP_ACCEPTED_IP_LENGTH`
abbrev pub accepted_length : ℕ
accepted_length = 4194304
