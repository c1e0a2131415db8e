-- ===== src/Stats/Annual.antt =====
-- `update_player_positions_for_year` and `update_per_server_positions_for_year`
-- (apps/tracker/managers/profile.py): the calls of `rank` for each table. The filters that the
-- code passes on are tests on the server of a row.
use swat4stats.Base.{ℕ, Bool, true, ◌*◌, none, some, List, [], ◌∷◌}
use swat4stats.Base.Int.{pos}
use swat4stats.Stats.{Stat}
use swat4stats.Stats.Rank.{Query, rank}

-- `LegacyStatCategory` (apps/tracker/entities.py), the categories that the calls name
abbrev pub time : ℕ
time = 1

abbrev pub games : ℕ
games = 2

abbrev pub kills : ℕ
kills = 6

abbrev pub spm_ratio : ℕ
spm_ratio = 24

abbrev pub spr_ratio : ℕ
spr_ratio = 25

abbrev pub kd_ratio : ℕ
kd_ratio = 26

abbrev pub weapon_shots : ℕ
weapon_shots = 48

abbrev pub weapon_hit_ratio : ℕ
weapon_hit_ratio = 50

abbrev pub grenade_hit_ratio : ℕ
grenade_hit_ratio = 67

abbrev pub grenade_shots : ℕ
grenade_shots = 70

abbrev pub grenade_teamhit_ratio : ℕ
grenade_teamhit_ratio = 71

abbrev pub weapon_kill_ratio : ℕ
weapon_kill_ratio = 81

abbrev pub weapon_teamhit_ratio : ℕ
weapon_teamhit_ratio = 83

-- `cats=[…], qualify={category: points}`, the points in ten-thousandths
abbrev pub only : ℕ → List ℕ → ℕ → ℕ → (Stat → Bool) → Query
only year cats category points filters = record {
  year = year;
  cats = some cats;
  exclude_cats = none;
  qualify = some ((category, pos (points * 10000)) ∷ []);
  filters = filters;
}

-- `exclude_cats=[…]`
abbrev pub without : ℕ → List ℕ → (Stat → Bool) → Query
without year cats filters = record {
  year = year;
  cats = none;
  exclude_cats = some cats;
  qualify = none;
  filters = filters;
}

-- `TRACKER_MIN_TIME` and the other limits
abbrev pub min_time : ℕ
min_time = 36000

abbrev pub min_games : ℕ
min_games = 100

abbrev pub min_kills : ℕ
min_kills = 500

abbrev pub min_weapon_shots : ℕ
min_weapon_shots = 1000

abbrev pub min_grenade_shots : ℕ
min_grenade_shots = 100

abbrev pub all_rows : Stat → Bool
all_rows r = true

-- The calls for `PlayerStats`.
unfoldable pub player_queries : ℕ → List Query
player_queries year =
    only year (spm_ratio ∷ []) time min_time all_rows
    ∷ only year (spr_ratio ∷ []) games min_games all_rows
    ∷ only year (kd_ratio ∷ []) kills min_kills all_rows
    ∷ only year (weapon_hit_ratio ∷ weapon_kill_ratio ∷ []) weapon_shots min_weapon_shots all_rows
    ∷ only year (grenade_hit_ratio ∷ []) grenade_shots min_grenade_shots all_rows
    ∷ without year
        (spm_ratio ∷ spr_ratio ∷ kd_ratio ∷ weapon_hit_ratio ∷ weapon_kill_ratio ∷ grenade_hit_ratio
          ∷ weapon_teamhit_ratio ∷ grenade_teamhit_ratio ∷ [])
        all_rows
    ∷ []

-- The calls for `GametypeStats`.
unfoldable pub gametype_queries : ℕ → List Query
gametype_queries year =
    only year (spm_ratio ∷ []) time min_time all_rows
    ∷ only year (spr_ratio ∷ []) games min_games all_rows
    ∷ without year (spm_ratio ∷ spr_ratio ∷ []) all_rows
    ∷ []

-- The calls for `ServerStats`, with the filters.
unfoldable pub server_queries : ℕ → (ℕ → Bool) → List Query
server_queries year filters =
    only year (spm_ratio ∷ []) time min_time (λ r. filters r.group)
    ∷ only year (spr_ratio ∷ []) games min_games (λ r. filters r.group)
    ∷ only year (kd_ratio ∷ []) kills min_kills (λ r. filters r.group)
    ∷ without year (spm_ratio ∷ spr_ratio ∷ kd_ratio ∷ []) (λ r. filters r.group)
    ∷ []

unfoldable pub rank_each : List Query → List Stat → List Stat
rank_each [] rows = rows
rank_each (q ∷ qs) rows = rank_each qs (rank q rows)

unfoldable pub update_per_server_positions_for_year : ℕ → (ℕ → Bool) → List Stat → List Stat
update_per_server_positions_for_year year filters = rank_each (server_queries year filters)

-- The three tables that are ranked.
pub record Boards : Type 0 where
  pub players : List Stat
  pub gametypes : List Stat
  pub servers : List Stat

unfoldable pub update_player_positions_for_year : ℕ → Boards → Boards
update_player_positions_for_year year b = record {
  players = rank_each (player_queries year) b.players;
  gametypes = rank_each (gametype_queries year) b.gametypes;
  servers = update_per_server_positions_for_year year (λ _. true) b.servers;
}
