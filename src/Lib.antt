-- ===== src/Lib.antt =====
-- swat4stats, the backend of a statistics service for SWAT 4 servers. The service keeps a registry of
-- game servers that it queries over UDP, receives the reports of finished games, attributes their
-- players to profiles by name, address and provider, and ranks profiles by year.
--
-- Base: what the modules share (numbers, texts, lists, sorting, tables and keys).
-- Models: the rows of apps/tracker/models.py that more than one part reads: Server, Game, and the
--   tables of the registry.
-- Server: apps/tracker/managers/server.py with apps/tracker/signals.py and
--   apps/tracker/tasks/servers.py. Create is create_servers; Listing.Refresh is refresh_status and
--   the task refresh_listed_servers with its signal handlers, Listing.Unlist the task that takes
--   failed servers off the list; Ratings is update_ratings; Discovery is discover_published_servers
--   and discover_good_query_ports; Status and Search are the cached statuses and the search columns;
--   Country is update_server_country; Stream is the view of apps/tracker/views/stream.py with the
--   receivers of the signal that follows; Merge is merge_servers. Listing.Cycle takes runs of the two
--   periodic tasks of the listing in any order. Create.Laws, RefreshLaws,
--   Ratings.Laws, Discovery.Published, Ports and Best, Merge.Flat and Merge.Complete hold the proofs.
-- Entities, Schema: the enumerations of apps/tracker/entities.py and the tables of codes of
--   apps/tracker/schema.py, which the models of reports translate by. Schema.Reversed compares the
--   tables with their inverses.
-- QueryString: JuliaQueryString of apps/tracker/utils/parser.py. Complex is set_complex_key_item and
--   expand_dots, Arrays is expand_array; Render and Paths hold the proofs.
-- Utils: Paging is apps/utils/misc.py with the task of apps/tracker/tasks/search.py.
-- GameStats: update_game_stats_with_game and denorm_game_stats of apps/tracker/managers/server.py and
--   map.py. Agree compares the two.
-- Names: force_clean_name, force_valid_name and force_name of apps/tracker/utils/misc.py.
-- Geo: apps/geoip/managers.py. Whois is _query_ip_address, Match the lookup and match_or_create,
--   Again the second lookup of an address.
-- Profiles: apps/tracker/managers/profile.py and alias.py. Popular is is_name_popular; Match and
--   Aliases are the lookups and creations, which call Geo for the provider of an address; Seen is
--   update_with_game; Preferences is update_preferences_for_profile. First, Smart, Links and
--   Preferred hold the proofs.
-- Stats: apps/tracker/managers/stats.py. Save is save_stats, Rank is rank, and Annual the rankings
--   of a year in apps/tracker/managers/profile.py. Order, Positions and Kept hold the proofs.
-- Games: apps/tracker/managers/game.py. Coop is the score and rank of a coop game, Neighbors
--   get_neighbors_for_game. Highlights and Weapons are the highlights of the fields of players and
--   of their weapons, and Credits is get_highlights_for_game, which joins them. Experts holds a proof.
-- Reports: create_game of apps/tracker/managers/game.py on the data that game_schema leaves, with
--   apps/tracker/managers/loadout.py, obtain_for of map.py and the task process_game_data of
--   apps/tracker/tasks/stream.py. Parts, Loadouts and Players make the rows, calling Names for the
--   names of players and Profiles for their aliases; Receive is the task with those that the
--   signal of a saved game queues, which call Profiles and GameStats. Kept, Counted, Saved and
--   Settled hold the proofs.
-- Query: apps/tracker/aio_tasks/serverquery.py and Task.execute of apps/tracker/utils/aio.py.
--   Payload, Collect and Expand are the methods of ServerStatusTask; Ordered, Arrival, Render, Order
--   and Spoiled hold the proofs.
--
-- A table is a list of rows and a query a function of it; a row that `get` finds is the first one
-- that fits, where SQL leaves the order open. A replica agrees with its table, and a transaction
-- that fails leaves no trace. Dates are numbers of seconds, points are ten-thousandths. Texts are
-- lists of code points. Signals are calls of their receivers.
--
-- Two loops run on fuel. In the removal of tags in Names each round takes at least one character
-- away, so the length of the name is enough. In the paging of Utils each full page holds at least one
-- row, so one round more than there are rows is enough. The loop that receives packets is a recursion on the
-- list of the packets that arrive before the timeout. All other loops are recursions on lists.
--
-- Parameters: the ipwhois package (Geo.Whois.Ipwhois), the database's UPPER (Profiles.Match), the
-- hash of an address and the test for word characters beyond ASCII (Names), and the answers of
-- queried servers (Server.Listing), unquote_plus (QueryString), the web pages with their parsers
-- and the shuffle of the discovery (Server.Discovery.World), slugify (Reports.Outside),
-- and the percentage of two numbers in floating point (Games.Weapons).
--
-- Not modelled: views, serializers, the admin site, migrations, templates and settings, which are
-- framework glue; search vectors, caching and logging; player aggregates,
-- the validators of the schema of reports, the widths of columns and the texts of highlights.
pub mod Base
pub mod Models
pub mod Server
pub mod Names
pub mod GameStats
pub mod Stats
pub mod Geo
pub mod Profiles
pub mod Query
pub mod Games
pub mod Utils
pub mod Entities
pub mod Schema
pub mod QueryString
pub mod Reports
