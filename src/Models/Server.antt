-- ===== src/Models/Server.antt =====
-- `class Server` (apps/tracker/models.py): the row of a game server, its defaults and its
-- validation. An address is the pair of the IPv4 number and the join port.
use swat4stats.Base.{ℕ, ◌+◌, Bool, true, false, ◌&&◌, Option, none, some, leb, ◌==◌, if◌then◌else◌}
use swat4stats.Base.Text.{Text}

pub record Server : Type 0 where
  pub pk : ℕ
  pub ip : ℕ
  pub port : ℕ
  pub status_port : ℕ
  pub enabled : Bool
  pub listed : Bool
  pub pinned : Bool
  pub country : Option Text
  pub version : Option Text
  pub failures : ℕ
  pub hostname : Option Text
  pub hostname_clean : Option Text
  pub hostname_updated_at : Option ℕ
  pub game_count : ℕ
  pub first_game : Option ℕ
  pub first_game_played_at : Option ℕ
  pub latest_game : Option ℕ
  pub latest_game_played_at : Option ℕ
  pub rating : Option ℕ
  pub rating_updated_at : Option ℕ
  pub merged_into : Option ℕ
  pub merged_into_at : Option ℕ
  pub merged_stats_at : Option ℕ
  pub search_updated_at : Option ℕ

-- `Server(ip=…, port=…)`: the declared defaults. A blank status port is 0.
abbrev pub new_server : ℕ → ℕ → ℕ → Server
new_server pk ip port = record {
  pk = pk;
  ip = ip;
  port = port;
  status_port = 0;
  enabled = true;
  listed = false;
  pinned = false;
  country = none;
  version = none;
  failures = 0;
  hostname = none;
  hostname_clean = none;
  hostname_updated_at = none;
  game_count = 0;
  first_game = none;
  first_game_played_at = none;
  latest_game = none;
  latest_game_played_at = none;
  rating = none;
  rating_updated_at = none;
  merged_into = none;
  merged_into_at = none;
  merged_stats_at = none;
  search_updated_at = none;
}

-- `Server.clean`: whether the port is in range
unfoldable pub clean : Server → Bool
clean s = leb 1 s.port && leb s.port 65535

-- What `Server.save` writes, or `none` where `clean` raises `ValidationError`.
unfoldable pub saved : Server → Option Server
unfolding clean
saved s =
    if clean s
    then some (if s.status_port == 0 then record s { status_port = s.port + 1 } else s)
    else none

-- `Server.address` as a test: the row has this address.
abbrev pub has_address : ℕ → ℕ → Server → Bool
has_address ip port s = s.ip == ip && s.port == port
