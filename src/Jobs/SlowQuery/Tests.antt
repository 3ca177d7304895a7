-- ===== src/Jobs/SlowQuery/Tests.antt =====
-- The calls on slow queries at concrete tables.
use alya.Prelude.{String}

abbrev a_request : String
a_request = "b7"
