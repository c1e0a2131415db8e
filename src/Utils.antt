-- ===== src/Utils.antt =====
-- Helpers that are not tied to the tracker (apps/utils/misc.py, apps/utils/schema.py).
pub mod Paging
mod Tests
