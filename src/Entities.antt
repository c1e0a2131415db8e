-- ===== src/Entities.antt =====
-- The enumerations of apps/tracker/entities.py whose members the schema and the managers name, with
-- the texts that stand for them in the reports and in the database.
pub mod Modes
pub mod Coop
pub mod Equipment
pub mod Ammo
