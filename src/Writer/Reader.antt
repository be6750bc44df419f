-- ===== src/Writer/Reader.antt =====
-- The other end of the format: what a reader of the trace knows after the pieces that it has read.
-- A string header announces the bytes of the string, a thread record sets a slot, and an event is
-- understood by the strings and the slots as they are at that point.
use tracey_mctraceface.Base.{
  ℕ, ◌≡◌, refl, List, [], ◌∷◌, ◌++◌, Option, none, some, Bytes, if◌then◌else◌, ◌==◌,
}
use tracey_mctraceface.Tracker.{ThreadKey}
use tracey_mctraceface.Wire.{Chunk, thread_record, string_header, event_header, raw}
use tracey_mctraceface.Writer.{FxtWriter}

-- The number 0 is the empty string.
abbrev pub resolve : (ℕ → Option Bytes) → ℕ → Option Bytes
resolve strings id = if id == 0 then some [] else strings id

pub record ReadEvent : Type 0 where
  pub event_type : ℕ
  pub thread : Option ThreadKey
  pub category : Option Bytes
  pub name : Option Bytes
  pub timestamp : ℕ

pub record Reader : Type 0 where
  pub strings : ℕ → Option Bytes
  pub threads : ℕ → Option ThreadKey
  pub announced : Option ℕ
  pub events : List ReadEvent

abbrev pub new_reader : Reader
new_reader = record { strings = λ id. none; threads = λ slot. none; announced = none; events = [] }

abbrev pub update {ℓ} : {A : Type ℓ} → (ℕ → Option A) → ℕ → A → ℕ → Option A
update f i v j = if i == j then some v else f j

abbrev pub read_raw : Option ℕ → Bytes → Reader → Reader
read_raw none bytes r = r
read_raw (some id) bytes r = record r { strings = update r.strings id bytes; announced = none }

abbrev pub read_chunk : Chunk → Reader → Reader
read_chunk (string_header rtype rsize id len) r = record r { announced = some id }
read_chunk (raw bytes) r = read_raw r.announced bytes r
read_chunk (thread_record rtype rsize slot pid tid) r = record r {
  threads = update r.threads slot (record { pid = pid; tid = tid });
}
read_chunk (event_header rtype rsize event_type num_args slot category name timestamp) r =
    record r {
      events =
          r.events
          ++ (record {
            event_type = event_type;
            thread = r.threads slot;
            category = resolve r.strings category;
            name = resolve r.strings name;
            timestamp = timestamp;
          }
              ∷ []);
    }
read_chunk _ r = r

unfoldable pub read_all : List Chunk → Reader → Reader
read_all [] r = r
read_all (c ∷ cs) r = read_all cs (read_chunk c r)

-- What a reader knows of what was written so far.
abbrev pub reader : FxtWriter → Reader
reader w = read_all w.sink new_reader

pub read_all-concat :
    (cs : List Chunk) (c : Chunk) (r : Reader)
    → read_all (cs ++ c ∷ []) r ≡ read_chunk c (read_all cs r)
unfolding read_all
read_all-concat [] c r = refl
read_all-concat (d ∷ cs) c r = read_all-concat cs c (read_chunk d r)
