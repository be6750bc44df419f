-- ===== src/Reconstructor/Output.antt =====
-- What a reader of the trace sees of a session of the reconstructor.
use tracey_mctraceface.Base.{
  ℕ, ◌≡◌, refl, sym, ap, ◌∙◌, List, [], ◌∷◌, ◌++◌, some, Bytes, codes, append_assoc,
}
use tracey_mctraceface.Base.{Option-cases, inl, inr}
use tracey_mctraceface.Event.{Event}
use tracey_mctraceface.Symbol.{shorten_symbol}
use tracey_mctraceface.Table.{find}
use tracey_mctraceface.Base.{equal}
use tracey_mctraceface.Thread.{
  PendingKind, call_event, ret_event, ret_from_untraced, Write, unknown_symbol,
}
use tracey_mctraceface.Tracker.{ThreadKey, Tracker, ThreadWrite, empty_tracker, run}
use tracey_mctraceface.Tracker
use tracey_mctraceface.Writer.{FxtWriter, ensure_thread, write_event_by_id}
use tracey_mctraceface.Writer.Reader.{reader}
use tracey_mctraceface.Writer.Threads.{intern_string-SameThreads, ensure_thread-slot}
use tracey_mctraceface.Writer.Soundness.{
  IsSound, Mark, marks, Shows, Shows-trans, Shows-none, intern_string-Shows, ensure_thread-Shows,
  write_event_by_id-Shows,
}
use tracey_mctraceface.Reconstructor.{
  Reconstructor, new_reconstructor, intern_symbol, write_kind, write_pending, write_all,
  process_all,
}
use tracey_mctraceface.Reconstructor

abbrev event_mark : ℕ → ThreadKey → ℕ → Mark
event_mark event_type k time = record { event_type = event_type; thread = some k; timestamp = time }

-- The events that a call of `write_pending` stands for.
abbrev pub kind_marks : PendingKind → ThreadKey → ℕ → List Mark
kind_marks (call_event location u) k time = event_mark 2 k time ∷ []
kind_marks ret_event k time = event_mark 3 k time ∷ []
kind_marks (ret_from_untraced reset_time) k time =
    event_mark 2 k reset_time ∷ event_mark 3 k time ∷ []

abbrev pub write_marks : ThreadWrite → List Mark
write_marks w = kind_marks w.write.event.kind w.key w.write.time

abbrev pub all_marks : List ThreadWrite → List Mark
all_marks [] = []
all_marks (w ∷ ws) = write_marks w ++ all_marks ws

all_marks-append : (ws us : List ThreadWrite) → all_marks (ws ++ us) ≡ all_marks ws ++ all_marks us
all_marks-append [] us = refl
all_marks-append (w ∷ ws) us =
    ap (λ l. write_marks w ++ l) (all_marks-append ws us)
    ∙ sym (append_assoc (write_marks w) (all_marks ws) (all_marks us))

intern_symbol-Shows :
    (s : Bytes) (r : Reconstructor)
    → IsSound r.writer
    → Shows [] r.writer (intern_symbol s r).0.writer
      × ((reader (intern_symbol s r).0.writer).threads ≡ (reader r.writer).threads)
unfolding intern_symbol
intern_symbol-Shows s r v = elim (Option-cases (find equal s r.symbol_id_cache)) [
  | inl new ↦
      rw (new, intern_symbol)
        (
          intern_string-Shows (shorten_symbol s) r.writer v,
          (intern_string-SameThreads (shorten_symbol s) r.writer).threads,
        )
  | inr (id, old) ↦ rw (old, intern_symbol) (Shows-none v refl, refl)
]

write_kind-Shows :
    (kind : PendingKind) (k : ThreadKey) (slot name_id time : ℕ) (r : Reconstructor)
    → IsSound r.writer
    → (reader r.writer).threads slot ≡ some k
    → Shows (kind_marks kind k time) r.writer (write_kind kind slot name_id time r).writer
unfolding write_kind
write_kind-Shows (call_event location u) k slot name_id time r v e =
    (write_event_by_id-Shows k 2 slot r.category_id name_id time r.writer v e).0
write_kind-Shows ret_event k slot name_id time r v e =
    (write_event_by_id-Shows k 3 slot r.category_id name_id time r.writer v e).0
write_kind-Shows (ret_from_untraced reset_time) k slot name_id time r v e =
    let (r', id) = intern_symbol unknown_symbol r in
    let (interned, same) = intern_symbol-Shows unknown_symbol r v in
    let (begun, e') =
      write_event_by_id-Shows k 2 slot r'.category_id id reset_time r'.writer interned.sound
        (ap (λ f. f slot) same ∙ e) in
    let u = write_event_by_id 2 slot r'.category_id id reset_time r'.writer in
    let (ended, e'') = write_event_by_id-Shows k 3 slot r'.category_id id time u begun.sound e' in
    Shows-trans [] _ interned (Shows-trans (event_mark 2 k reset_time ∷ []) _ begun ended)

write_pending-Shows :
    (k : ThreadKey) (w : Write) (r : Reconstructor)
    → IsSound r.writer
    → Shows (kind_marks w.event.kind k w.time) r.writer (write_pending k w r).writer
unfolding write_pending
write_pending-Shows k w r v =
    let (r', name_id) = intern_symbol w.event.symbol r in
    let (interned, same) = intern_symbol-Shows w.event.symbol r v in
    let u = ensure_thread k r'.writer in
    let ensured = ensure_thread-Shows k r'.writer interned.sound in
    let known = (ensure_thread-slot k r'.writer interned.sound.threads).0 in
    Shows-trans [] _ interned (
      Shows-trans [] _ ensured (
        write_kind-Shows w.event.kind k u.1 name_id w.time (record r' { writer = u.0 })
          ensured.sound known))

write_all-Shows :
    (ws : List ThreadWrite) (r : Reconstructor)
    → IsSound r.writer
    → Shows (all_marks ws) r.writer (write_all ws r).writer
unfolding write_all
write_all-Shows [] r v = Shows-none v refl
write_all-Shows (w ∷ ws) r v =
    let s = write_pending-Shows w.key w.write r v in
    Shows-trans (write_marks w) (all_marks ws) s
      (write_all-Shows ws (write_pending w.key w.write r) s.sound)

pub intern_symbol-tracker :
    (s : Bytes) (r : Reconstructor) → (intern_symbol s r).0.tracker ≡ r.tracker
unfolding intern_symbol
intern_symbol-tracker s r = elim (Option-cases (find equal s r.symbol_id_cache)) [
  | inl new ↦ rw (new, intern_symbol) refl
  | inr (id, old) ↦ rw (old, intern_symbol) refl
]

write_kind-tracker :
    (kind : PendingKind) (slot name_id time : ℕ) (r : Reconstructor)
    → (write_kind kind slot name_id time r).tracker ≡ r.tracker
unfolding write_kind
write_kind-tracker (call_event location u) slot name_id time r = refl
write_kind-tracker ret_event slot name_id time r = refl
write_kind-tracker (ret_from_untraced reset_time) slot name_id time r =
    intern_symbol-tracker unknown_symbol r

pub write_all-tracker :
    (ws : List ThreadWrite) (r : Reconstructor) → (write_all ws r).tracker ≡ r.tracker
unfolding write_all write_pending
write_all-tracker [] r = refl
write_all-tracker (w ∷ ws) r =
    let (r', name_id) = intern_symbol w.write.event.symbol r in
    let (writer, slot) = ensure_thread w.key r'.writer in
    write_all-tracker ws (write_pending w.key w.write r)
    ∙ write_kind-tracker w.write.event.kind slot name_id w.write.time
        (record r' { writer = writer })
    ∙ intern_symbol-tracker w.write.event.symbol r

process_all-Shows :
    (es : List Event) (r : Reconstructor)
    → IsSound r.writer
    → Shows (all_marks (run es r.tracker).1) r.writer (process_all es r).writer
unfolding process_all Reconstructor.process_event Reconstructor.finish run
process_all-Shows [] r v =
    write_all-Shows (Tracker.finish r.tracker).1
      (record r { tracker = (Tracker.finish r.tracker).0 }) v
process_all-Shows (e ∷ es) r v =
    let (tracker, ws) = Tracker.process_event e r.tracker in
    let r' = write_all ws (record r { tracker = tracker }) in
    let s = write_all-Shows ws (record r { tracker = tracker }) v in
    let t = write_all-tracker ws (record r { tracker = tracker }) in
    let rest = process_all-Shows es r' s.sound in
    let ms = all_marks-append ws (run es tracker).1 in
    let tail = ap (λ x. all_marks (run es x).1) t in
    let both = Shows-trans (all_marks ws) (all_marks (run es r'.tracker).1) s rest in
    record {
      sound = both.sound;
      shown =
          both.shown ∙ ap (λ l. marks r.writer ++ l) (ap (λ l. all_marks ws ++ l) tail ∙ sym ms);
    }

-- From a writer in order, a session over any list of events keeps the writer in order, and the events
-- that a reader of the whole output sees are those seen before, then, in order, exactly the begin and
-- end events that the tracker asks for: each under its own thread, of its own type, at its own time.
pub process_all-shows :
    (es : List Event) (w : FxtWriter)
    → IsSound w
    → let u = (process_all es (new_reconstructor w)).writer in
      IsSound u × (marks u ≡ marks w ++ all_marks (run es empty_tracker).1)
unfolding new_reconstructor
process_all-shows es w v =
    let started = intern_string-Shows (codes "trace") w v in
    let s = Shows-trans [] _ started (process_all-Shows es (new_reconstructor w) started.sound) in
    (s.sound, s.shown)
