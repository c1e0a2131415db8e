-- ===== src/Server.antt =====
-- The server registry (apps/tracker/managers/server.py), and the signal receivers and tasks that
-- drive it (apps/tracker/signals.py, apps/tracker/tasks/servers.py).
pub mod Create
pub mod Listing
pub mod Discovery
pub mod Ratings
pub mod Merge
pub mod Status
pub mod Country
pub mod Search
pub mod Stream
mod Tests
