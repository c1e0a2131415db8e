-- ===== src/Games.antt =====
-- Finished games (apps/tracker/managers/game.py): the score and rank of a coop game, the games next
-- to a game of its server, and the highlights of its players.
pub mod Coop
pub mod Neighbors
pub mod Highlights
pub mod Weapons
pub mod Experts
pub mod Credits
mod Tests
