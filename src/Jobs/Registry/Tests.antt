-- ===== src/Jobs/Registry/Tests.antt =====
-- A registration at a concrete app.
use alya.Prelude.{ℕ, [], ◌∷◌}
use alya.Jobs.Registry.{Registry}

abbrev one_processor : Registry ℕ
one_processor = ("crmload", 5) ∷ []
