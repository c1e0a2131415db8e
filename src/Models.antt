-- ===== src/Models.antt =====
-- The rows of the tracker's tables (apps/tracker/models.py), one record for each model. Moments
-- are numbers of microseconds, primary and foreign keys are numbers, a nullable column is an
-- `Option`. Of each model the columns are kept that some operation of the managers reads or
-- writes; search vectors and the columns marked as pending removal are left out.
pub mod Server
pub mod Game
pub mod Db
