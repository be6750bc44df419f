-- ===== src/Reconstructor.antt =====
-- lib/stack_reconstructor.cpp, the members of `StackReconstructor` that reach the writer: the
-- constructor, `intern_symbol`, `write_pending`, and `process_event` and `finish` as a whole. Tracker
-- holds the rest of the class.
pub mod Cache
pub mod Names
pub mod Stale
pub mod Output
use tracey_mctraceface.Base.{ℕ, Bool, List, [], ◌∷◌, ◌++◌, Option, none, some, Bytes, codes, equal}
use tracey_mctraceface.Event.{Event}
use tracey_mctraceface.Symbol.{shorten_symbol}
use tracey_mctraceface.Table.{Table, find}
use tracey_mctraceface.Thread.{
  PendingKind, call_event, ret_event, ret_from_untraced, PendingEvent, Write, unknown_symbol,
}
use tracey_mctraceface.Tracker.{ThreadKey, Tracker, ThreadWrite, empty_tracker}
use tracey_mctraceface.Tracker
use tracey_mctraceface.Writer.{FxtWriter, intern_string, ensure_thread, write_event_by_id}

pub record Reconstructor : Type 0 where
  pub tracker : Tracker
  pub writer : FxtWriter
  pub category_id : ℕ
  pub symbol_id_cache : Table Bytes

-- The constructor.
unfoldable pub new_reconstructor : FxtWriter → Reconstructor
new_reconstructor writer =
    let (writer', id) = intern_string (codes "trace") writer in
    record { tracker = empty_tracker; writer = writer'; category_id = id; symbol_id_cache = [] }

unfoldable pub intern_symbol : Bytes → Reconstructor → Reconstructor × ℕ
intern_symbol raw_symbol r = elim (find equal raw_symbol r.symbol_id_cache) [
  | some id ↦ (r, id)
  | none ↦
      let (w, id) = intern_string (shorten_symbol raw_symbol) r.writer in
      (record r { writer = w; symbol_id_cache = (raw_symbol, id) ∷ r.symbol_id_cache }, id)
]

abbrev pub write_by_id : ℕ → ℕ → ℕ → ℕ → Reconstructor → Reconstructor
write_by_id event_type thread_ref name_id time r = record r {
  writer = write_event_by_id event_type thread_ref r.category_id name_id time r.writer;
}

-- The `switch` of `write_pending`.
unfoldable pub write_kind : PendingKind → ℕ → ℕ → ℕ → Reconstructor → Reconstructor
write_kind (call_event location u) thread_ref name_id time r =
    write_by_id 2 thread_ref name_id time r
write_kind ret_event thread_ref name_id time r = write_by_id 3 thread_ref name_id time r
write_kind (ret_from_untraced reset_time) thread_ref name_id time r =
    let (r', unknown_id) = intern_symbol unknown_symbol r in
    write_by_id 3 thread_ref unknown_id time (write_by_id 2 thread_ref unknown_id reset_time r')

unfoldable pub write_pending : ThreadKey → Write → Reconstructor → Reconstructor
write_pending k w r =
    let (r', name_id) = intern_symbol w.event.symbol r in
    let (writer, thread_ref) = ensure_thread k r'.writer in
    write_kind w.event.kind thread_ref name_id w.time (record r' { writer = writer })

-- The calls of `write_pending` that an event causes, in order.
unfoldable pub write_all : List ThreadWrite → Reconstructor → Reconstructor
write_all [] r = r
write_all (w ∷ ws) r = write_all ws (write_pending w.key w.write r)

unfoldable pub process_event : Event → Reconstructor → Reconstructor
process_event e r =
    let (tracker, writes) = Tracker.process_event e r.tracker in
    write_all writes (record r { tracker = tracker })

unfoldable pub finish : Reconstructor → Reconstructor
finish r =
    let (tracker, writes) = Tracker.finish r.tracker in
    write_all writes (record r { tracker = tracker })

-- A whole session.
unfoldable pub process_all : List Event → Reconstructor → Reconstructor
process_all [] r = finish r
process_all (e ∷ es) r = process_all es (process_event e r)
