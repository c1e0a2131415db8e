-- ===== src/Reports/Tests.antt =====
-- A report of two players that is sent twice.
use swat4stats.Base.{List, ℕ, ◌≡◌, refl, true, none, some, [], ◌∷◌}
use swat4stats.Base.Int.{pos}
use swat4stats.Base.Text.{Text, codes}
use swat4stats.Profiles.Aliases as Aliases
use swat4stats.Profiles.Match as Match
use swat4stats.Profiles.Popular as Popular
use swat4stats.Geo.Match as GeoMatch
use swat4stats.Geo.Whois.{query_ip_address, query_defined, read_nets}
use swat4stats.Names.{
  is_cub, is_slash, closed_tag, short_tag, until_bracket, is_space, lstrip, rstrip_head, rstrip,
  strip, starts_with, remove, long_tag, tag_at, find_tag, drop_tags, force_clean_name,
}
use swat4stats.Names.Force.{force_valid_name, force_name}
use swat4stats.Query.Number.{parse_int, signed, unsigned, digits, next_digit}
use swat4stats.Schema.Dict.{reversed}
use swat4stats.Schema.Codes.{
  team_value, gametypes_reversed, gametypes_encoded, outcome_reversed, outcome_encoded,
  teams_reversed,
}
use swat4stats.Schema.Maps.{mapnames_reversed, mapnames_encoded}
use swat4stats.Schema.Items.{
  equipment_reversed, equipment_encoded, ammo_reversed, ammo_encoded, weapon_reversed,
  weapon_encoded,
}
use swat4stats.Entities.Equipment.{equipment_value}
use swat4stats.Entities.Ammo.{ammo_value}
use swat4stats.Reports.{PlayerData, GameData, GameRow, Tables, Outside, number, flag}
use swat4stats.Reports.Attempts.{◌>>=◌}
use swat4stats.Reports.Loadouts as Loadouts
use swat4stats.Reports.Loadouts.{values, legacy, obtain}
use swat4stats.Entities.Modes.{
  GameType, game_type_value, game_outcome_value, versus_modes, coop_modes, is_coop,
}
use swat4stats.Reports.Parts.{obtain_for, create_game_procedures, create_game_objectives}
use swat4stats.Reports.Players.{
  set_fields, team_columns, coop_status_columns, weapon_rows, create_weapons, save_player,
  create_player, create_game_players,
}
use swat4stats.Reports.Create.{
  game_type_of, coop_columns, insert_game, game_row, create_parts, save_game, create_game,
  Processed, sent, skipped, retried, process_game_data,
}
use swat4stats.GameStats.{no_games, denorm, aggregate}
use swat4stats.Reports.Receive.{Arrival, World, receive_all}
use swat4stats.Reports.Settled.{IsSettled, receive_all-IsSettled}
use swat4stats.Reports.Saved.{IsSaved, processed-sent, create_game-IsSaved, process_game_data-again}

abbrev out : Outside
out = record {
  whois = record { ipv4_is_defined = λ _. none; lookup_whois = λ _. none };
  upper = λ s. s;
  now = 1000;
  hexdigest = λ _. codes "0a1b";
  is_word = λ _. true;
  slugify = λ s. s;
}

abbrev tables : Tables
tables = record {
  people = record {
    geo = record { ips = []; isps = []; next_ip = 1; next_isp = 1 };
    profiles = [];
    aliases = [];
    players = [];
    games = [];
    next_profile = 1;
    next_alias = 1;
  };
  games = [];
  maps = [];
  procedures = [];
  objectives = [];
  loadouts = [];
  players = [];
  weapons = [];
  next_game = 1;
  next_map = 1;
  next_loadout = 1;
  next_player = 1;
}

abbrev player : Text → ℕ → PlayerData
player name ip = record {
  name = name;
  ip = ip;
  team = some (codes "suspects");
  coop_status = none;
  vip = none;
  items = (codes "score", number (pos 3)) ∷ (codes "admin", flag true) ∷ [];
  loadout = some ((codes "primary", codes "9mm SMG") ∷ []);
  weapons = some (
      record {
        name = some (codes "9mm SMG");
        time = 9;
        shots = 40;
        hits = 12;
        teamhits = 0;
        kills = 3;
        teamkills = 0;
        distance = 900;
      }
      ∷ []);
}

abbrev report : GameData
report = record {
  tag = codes "5e8f";
  gametype = codes "Barricaded Suspects";
  mapname = codes "A-Bomb Nightclub";
  outcome = some (codes "swat_bs");
  time = 600;
  player_num = 2;
  score_swat = pos 1;
  score_sus = pos 6;
  vict_swat = 0;
  vict_sus = 1;
  bombs_defused = 0;
  bombs_total = 0;
  coop_procedures = none;
  coop_objectives = none;
  players = some (player (codes "Serge") 77 ∷ player (codes "Grue") 78 ∷ []);
}

abbrev row : GameRow
row = record {
  pk = 1;
  server = 1;
  tag = codes "5e8f";
  date_finished = 500;
  gametype = GameType.barricaded_suspects;
  gametype_legacy = some (pos 0);
  map = 1;
  mapname = some (pos 0);
  outcome = some (codes "swat_bs");
  outcome_legacy = 1;
  time = 600;
  player_num = 2;
  score_swat = pos 1;
  score_sus = pos 6;
  vict_swat = 0;
  vict_sus = 1;
  rd_bombs_defused = 0;
  rd_bombs_total = 0;
  coop_score = pos 0;
  coop_rank = none;
}

abbrev tables_of : Processed → Tables
tables_of (sent g db) = db
tables_of skipped = tables
tables_of (retried e) = tables

abbrev after : Tables
after = tables_of (process_game_data out 1 report 500 tables)

first_sent : process_game_data out 1 report 500 tables ≡ sent row after
unfolding process_game_data create_game game_type_of game_type_value versus_modes coop_modes is_coop
    obtain_for game_row coop_columns save_game insert_game create_parts ◌>>=◌ create_game_procedures
    create_game_objectives create_game_players create_player set_fields team_columns
    coop_status_columns weapon_rows create_weapons save_player obtain values legacy
    Loadouts.get_or_create force_name force_valid_name force_clean_name drop_tags find_tag tag_at
    long_tag short_tag closed_tag until_bracket is_cub is_slash is_space lstrip rstrip rstrip_head
    strip starts_with remove Aliases.match_or_create Aliases.match_isp Aliases.get_or_create
    Aliases.is_alias Aliases.create_alias Aliases.add_alias Aliases.bump_alias_updated_at
    Aliases.is_before Aliases.isp_row Match.match_smart_or_create Match.match_smart
    Match.match_steps Match.match Match.fits Match.fits_name Match.fits_country Match.fits_player
    Match.played_since Match.or_create Match.create_profile Match.prepare_match_smart_steps
    Match.isp_steps Match.country_step Popular.is_name_popular Popular.any_text Popular.starts
    Popular.is_word GeoMatch.match_or_create GeoMatch.match GeoMatch.smallest GeoMatch.closer
    GeoMatch.look_up GeoMatch.accept query_ip_address query_defined read_nets team_value
    gametypes_reversed gametypes_encoded outcome_reversed outcome_encoded game_outcome_value
    teams_reversed mapnames_reversed mapnames_encoded equipment_reversed equipment_encoded
    equipment_value ammo_reversed ammo_encoded ammo_value weapon_reversed weapon_encoded reversed
    parse_int signed unsigned digits next_digit
first_sent = refl

process_game_data-again_example : process_game_data out 2 report 900 after ≡ skipped
process_game_data-again_example =
    process_game_data-again out 1 report 500 tables row after out 2 900 first_sent

create_game-IsSaved_example : IsSaved report row tables after
unfolding process_game_data
create_game-IsSaved_example =
    create_game-IsSaved out 1 report 500 tables row after
      (processed-sent (create_game out 1 report 500 tables) row after first_sent)

-- The report twice, and one of a game on another server.
abbrev arrivals : List Arrival
arrivals =
    record { out = out; server = 1; report = report; received = 500 }
    ∷ record { out = out; server = 1; report = report; received = 560 }
    ∷ record {
      out = out;
      server = 2;
      report = record report { tag = codes "7c01" };
      received = 700;
    }
    ∷ []

abbrev world : World
world = record { tables = tables; servers = λ _. no_games; maps = λ _. no_games }

world-IsSettled : IsSettled world
unfolding denorm aggregate
world-IsSettled = record { ascending = tt; below = tt; servers = λ _. refl; maps = λ _. refl }

receive_all-IsSettled_example : IsSettled (receive_all arrivals world)
receive_all-IsSettled_example = receive_all-IsSettled arrivals world world-IsSettled
