-- ===== src/Log/Levels.antt =====
-- lib/log.cpp: that a higher level prints no less.
use tracey_mctraceface.Base.{◌≤◌, ◌≡◌, refl, ◌⊎◌, inl, inr, [], Bytes, arith}
use tracey_mctraceface.Log.{Level, quiet, normal, verbose, rank, error, warning, info, debug}

-- What is printed at a level is printed at each higher one: of no message does a higher level print
-- less; errors and warnings are printed at all.
pub levels_grow :
    (low high : Level) (msg : Bytes)
    → rank low ≤ rank high
    → ((info low msg ≡ []) ⊎ (info high msg ≡ info low msg))
      × ((debug low msg ≡ []) ⊎ (debug high msg ≡ debug low msg))
      × (error high msg ≡ error low msg)
      × (warning high msg ≡ warning low msg)
unfolding info debug error warning
levels_grow quiet high msg h = (inl refl, inl refl, refl, refl)
levels_grow normal quiet msg h = absurd (omega arith)
levels_grow normal normal msg h = (inr refl, inl refl, refl, refl)
levels_grow normal verbose msg h = (inr refl, inl refl, refl, refl)
levels_grow verbose quiet msg h = absurd (omega arith)
levels_grow verbose normal msg h = absurd (omega arith)
levels_grow verbose verbose msg h = (inr refl, inr refl, refl, refl)
