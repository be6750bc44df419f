-- ===== src/Log.antt =====
-- lib/log.cpp: which messages are printed, by the level that is set.
pub mod Levels
use tracey_mctraceface.Base.{ℕ, Bool, List, [], ◌∷◌, ◌++◌, Bytes, codes, if◌then◌else◌, leb}

pub data Level : Type 0 where
  quiet normal verbose : Level

-- The order of the enumerators.
abbrev pub rank : Level → ℕ
rank quiet = 0
rank normal = 1
rank verbose = 2

-- The lines that a message makes on `std::cerr` at a level.
unfoldable pub error : Level → Bytes → List Bytes
error level msg = (codes "error: " ++ msg) ∷ []

unfoldable pub warning : Level → Bytes → List Bytes
warning level msg = (codes "warning: " ++ msg) ∷ []

unfoldable pub info : Level → Bytes → List Bytes
info level msg = if leb (rank normal) (rank level) then msg ∷ [] else []

unfoldable pub debug : Level → Bytes → List Bytes
debug level msg = if leb (rank verbose) (rank level) then msg ∷ [] else []
