-- ===== src/Schema.antt =====
-- The tables of codes of apps/tracker/schema.py, and their inverses.
pub mod Dict
pub mod Codes
pub mod Maps
pub mod Objectives
pub mod Items
pub mod Reversed
