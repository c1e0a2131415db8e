-- ===== src/Stats/Tests.antt =====
-- Two servers' rows of one year: saved, ranked, and ranked with the filter of one server.
use swat4stats.Base.{
  ℕ, ◌≡◌, refl, Option, none, some, List, [], ◌∷◌, map, arith, ◌==◌, if◌then◌else◌,
}
use swat4stats.Base.Int.{ℤ, pos}
use swat4stats.Base.Keys.{UniqueKeys}
use swat4stats.Stats.{Stat, Key}
use swat4stats.Stats.Save.{
  StatTable, save_stats, points_at, position_at, belongs, item_points, update_with,
  save_stats-points, save_stats-position,
}
use swat4stats.Stats.Rank.{
  Query, rank, row_number, rank_categories, categories, is_ranked, in_categories, qualify_rows,
  qualified, rank_category, clear_positions, assign, positions, before,
}
use swat4stats.Stats.Order.{pk, ranked, rank-ranked}
use swat4stats.Stats.Positions.{IsInOrder, row_number_order}
use swat4stats.Stats.Annual.{Boards, update_player_positions_for_year}
use swat4stats.Stats.Kept.{AreKept, update_player_positions_for_year-AreKept}

-- Category 1 is the score for the time played, 2 the time.
abbrev row : ℕ → ℕ → ℕ → ℕ → ℕ → Option ℕ → Stat
row pk category group profile points position = record {
  pk = pk;
  category = category;
  group = group;
  year = 2016;
  profile = profile;
  points = pos points;
  position = position;
}

abbrev rows : List Stat
rows =
    row 1 1 7 100 50 none
    ∷ row 2 1 7 101 80 none
    ∷ row 3 2 7 100 9000 none
    ∷ row 4 2 7 101 9500 none
    ∷ row 5 1 8 100 70 (some 1)
    ∷ []

-- The ranking of the ratio at server 7 only.
abbrev server_query : Query
server_query = record {
  year = 2016;
  cats = some (1 ∷ []);
  exclude_cats = none;
  qualify = some ((2, pos 5000) ∷ []);
  filters = λ r. r.group == 7;
}

rank_server :
    map (λ r. r.position) (rank server_query rows) ≡ some 2 ∷ some 1 ∷ none ∷ none ∷ none ∷ []
unfolding rank rank_categories categories is_ranked in_categories qualify_rows qualified
    rank_category clear_positions assign positions row_number before
rank_server = refl

rows-UniqueKeys : UniqueKeys pk rows
rows-UniqueKeys = omega arith

rank-ranked_example : rank server_query rows ≡ map (ranked server_query rows) rows
rank-ranked_example = rank-ranked server_query rows rows-UniqueKeys

row_number_order_example : IsInOrder (row 1 1 7 100 50 none ∷ row 2 1 7 101 80 none ∷ [])
row_number_order_example = row_number_order (row 1 1 7 100 50 none ∷ row 2 1 7 101 80 none ∷ [])

abbrev table : StatTable
table = record { rows = rows; next_pk = 6 }

abbrev items : List (ℕ × Option ℤ)
items = (1, some (pos 60)) ∷ (2, some (pos 0)) ∷ (3, none) ∷ []

abbrev key : Key
key = record { category = 1; group = 8; year = 2016; profile = 100 }

save_stats-points_example : points_at key (save_stats 100 2016 8 items table) ≡ (
    if belongs 100 2016 8 key
    then update_with (item_points 1 items) (points_at key table)
    else points_at key table)
save_stats-points_example =
    save_stats-points 100 2016 8 items table key ((refl, (refl, tt)), ((refl, tt), (tt, tt)))

save_stats-position_example : position_at key (save_stats 100 2016 8 items table) ≡ some (some 1)
save_stats-position_example = save_stats-position 100 2016 8 items table key (some 1) refl

abbrev boards : Boards
boards = record { players = []; gametypes = []; servers = rows }

update_player_positions_for_year-AreKept_example :
    AreKept 2016 [] (update_player_positions_for_year 2016 boards).players
    × AreKept 2016 [] (update_player_positions_for_year 2016 boards).gametypes
    × AreKept 2016 rows (update_player_positions_for_year 2016 boards).servers
update_player_positions_for_year-AreKept_example =
    update_player_positions_for_year-AreKept 2016 boards tt tt rows-UniqueKeys
