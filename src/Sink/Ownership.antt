-- ===== src/Sink/Ownership.antt =====
-- lib/file_sink.cpp: that moves lose no file and have none closed twice.
use tracey_mctraceface.Base.{◌≡◌, refl, false, List, [], ◌∷◌, ◌++◌, Option, none, some}
use tracey_mctraceface.Sink.{Stream, FileSink, file_close, file_move, file_assign}

-- The stream that a pointer leads to, if any.
abbrev pub streams : Option Stream → List Stream
streams none = []
streams (some f) = f ∷ []

-- The files that are closed when a sink is assigned to another by a move, and then the destructors of
-- both run.
unfoldable pub closed_after_assign : FileSink → FileSink → List Stream
closed_after_assign self other =
    let (self', other', closed) = file_assign false self other in
    streams closed ++ (streams (file_close self').1 ++ streams (file_close other').1)

-- The files that are closed when a sink is made from another by a move, and then closed twice and
-- destroyed, before the other is.
unfoldable pub closed_after_move : FileSink → List Stream
closed_after_move other =
    let (self, other') = file_move other in
    let (self', closed) = file_close self in
    let (self'', closed_again) = file_close self' in
    streams closed
    ++ (streams closed_again ++ (streams (file_close self'').1 ++ streams (file_close other').1))

-- Over a move, by assignment or construction, and the destructors after it, however often `close` is
-- called in between, each open file is closed exactly once: that of the target, then that of the
-- source.
pub closed_exactly_once :
    (self other : FileSink)
    → (closed_after_assign self other ≡ streams self.file ++ streams other.file)
      × (closed_after_move other ≡ streams other.file)
unfolding closed_after_assign closed_after_move file_assign file_close file_move
closed_exactly_once self other = (by_assign self.file other.file, by_move other.file)
  where
    by_assign : (f g : Option Stream) → streams f ++ (streams g ++ []) ≡ streams f ++ streams g
    by_assign none none = refl
    by_assign none (some g) = refl
    by_assign (some f) none = refl
    by_assign (some f) (some g) = refl

    by_move : (g : Option Stream) → streams g ++ [] ≡ streams g
    by_move none = refl
    by_move (some g) = refl
