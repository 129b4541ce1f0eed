-- ===== src/Tests/Api.antt =====
-- Runs of src/api/routes.rs.
use auxlry.Prelude.{ℕ, []}
use auxlry.Memory.Tools.{Memories}

abbrev no_memories : Memories ℕ ℕ
no_memories = record { rows = []; metadata = []; edges = []; events = [] }
