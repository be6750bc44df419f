-- ===== src/Sink.antt =====
-- include/tracey_mctraceface/output_sink.hpp and lib/file_sink.cpp: the sinks that bytes go to, with
-- `make_sink` of lib/compressed_sink.cpp. A `FILE*` of the C library is what has been written to it,
-- with how much the next calls of `fwrite` take.
pub mod Contract
pub mod Errors
pub mod Ownership
pub mod Gzip
pub mod Zstd
pub mod Session
pub mod RoundTrip
pub mod Ends
use tracey_mctraceface.Base.{
  ℕ, ◌≡◌, Bool, true, false, not, ◌&&◌, List, [], ◌∷◌, ◌++◌, Option, none, some, Bytes, codes,
  is_empty, if◌then◌else◌, ◌==◌, length, take,
}
use tracey_mctraceface.Base.Outcome.{Result, ok, throws, Void, done, Action, ◌>>◌, pure}
use tracey_mctraceface.Parser.Scan.{ends_with}

-- `shorts` has, for each coming call of `fwrite`, the most bytes that it takes; the calls behind them
-- take all that they are given.
pub record Stream : Type 0 where
  pub contents : Bytes
  pub shorts : List ℕ

-- `fopen` for writing.
abbrev pub new_stream : List ℕ → Stream
new_stream shorts = record { contents = []; shorts = shorts }

-- The stream after the call, and the bytes that it has taken.
abbrev pub fwrite_with : Bytes → Bytes → List ℕ → Stream × ℕ
fwrite_with bytes contents [] = (record { contents = contents ++ bytes; shorts = [] }, length bytes)
fwrite_with bytes contents (most ∷ shorts) =
    (record { contents = contents ++ take most bytes; shorts = shorts }, length (take most bytes))

unfoldable pub fwrite : Bytes → Stream → Stream × ℕ
fwrite bytes f = fwrite_with bytes f.contents f.shorts

-- What a class that writes bytes promises: as long as it is open, a write that does not throw puts
-- its bytes, where they fit its interface, behind those that it holds.
pub record OutputSink : Type 1 where
  pub State : Type 0
  pub write : Bytes → Action State Void
  pub held : State → Bytes
  pub IsOpen : State → Type 0
  pub Fits : Bytes → Type 0
  pub write_keeps :
      (bytes : Bytes) (s s' : State)
      → Fits bytes
      → IsOpen s
      → write bytes s ≡ (ok done, s')
      → IsOpen s' × (held s' ≡ held s ++ bytes)

-- `VectorSink`
pub record VectorSink : Type 0 where
  pub buf : Bytes

unfoldable pub vector_write : Bytes → Action VectorSink Void
vector_write bytes s = (ok done, record s { buf = s.buf ++ bytes })

unfoldable pub vector_size : VectorSink → ℕ
vector_size s = length s.buf

unfoldable pub vector_clear : VectorSink → VectorSink
vector_clear s = record s { buf = [] }

-- `file_` is `none` where the pointer is null.
pub record FileSink : Type 0 where
  pub file : Option Stream

-- The constructor; `opened` is what `fopen` gives.
unfoldable pub new_file_sink : Bytes → Option Stream → Result FileSink
new_file_sink path none = throws (codes "FileSink: failed to open " ++ path)
new_file_sink path (some f) = ok (record { file = some f })

abbrev pub write_failed : Bytes
write_failed = codes "FileSink: write failed (disk full?)"

unfoldable pub file_write_to : Bytes → Option Stream → Action FileSink Void
file_write_to bytes none s = (ok done, s)
file_write_to bytes (some f) s =
    if not (is_empty bytes)
    then (let (f', written) = fwrite bytes f in
        (
          if written == length bytes then ok done else throws write_failed,
          record { file = some f' },
        ))
    else (ok done, s)

unfoldable pub file_write : Bytes → Action FileSink Void
file_write bytes s = file_write_to bytes s.file s

-- The sink after it, and the stream that `fclose` has been given, if any.
unfoldable pub file_close : FileSink → FileSink × Option Stream
file_close s = (record { file = none }, s.file)

-- `FileSink(std::move(other))`: the new sink, and `other`.
unfoldable pub file_move : FileSink → FileSink × FileSink
file_move other = (record { file = other.file }, record { file = none })

-- `*this = std::move(other)`, where `is_self` says that both are one object: the two sinks, and the
-- stream that has been closed.
unfoldable pub file_assign :
    (is_self : Bool) → FileSink → FileSink → FileSink × FileSink × Option Stream
file_assign true self other = (self, self, none)
file_assign false self other =
    let (self', closed) = file_close self in
    (record self' { file = other.file }, record { file = none }, closed)

pub data SinkKind : Type 0 where
  gzip zstd plain : SinkKind

-- The class that `make_sink` makes.
unfoldable pub sink_kind : Bytes → SinkKind
sink_kind name =
    if ends_with name (codes ".gz")
    then gzip
    else if ends_with name (codes ".zst")
    then zstd
    else plain

-- The loop of a client that writes one piece after the other.
module _ (k : OutputSink) where
  open k use {State, write}

  unfoldable pub write_all : List Bytes → Action State Void
  write_all [] = pure done
  write_all (piece ∷ pieces) = write piece >> write_all pieces
