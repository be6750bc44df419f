-- ===== src/Reconstructor/Names.antt =====
-- The names that a reader sees in a whole session, while there are numbers for all of its texts.
use tracey_mctraceface.Base.{
  ℕ, ◌+◌, ◌*◌, ◌≤◌, ◌≡◌, refl, sym, ap, ◌∙◌, List, [], ◌∷◌, ◌++◌, some, Bytes, codes, append_assoc,
  length, length-append, arith, subst,
}
use tracey_mctraceface.Base.{equal}
use tracey_mctraceface.Table.{find}
use tracey_mctraceface.Event.{Event}
use tracey_mctraceface.Symbol.{shorten_symbol}
use tracey_mctraceface.Thread.{Write}
use tracey_mctraceface.Tracker.{ThreadKey, Tracker, ThreadWrite, empty_tracker, run}
use tracey_mctraceface.Tracker
use tracey_mctraceface.Writer.{FxtWriter, ensure_thread, max_string_id}
use tracey_mctraceface.Writer.Reader.{ReadEvent, reader}
use tracey_mctraceface.Writer.Threads.{
  intern_string-SameThreads, ensure_thread-slot, ensure_thread-events,
}
use tracey_mctraceface.Writer.Capacity.{Grows-same, intern_string-Grows, ensure_thread-Grows}
use tracey_mctraceface.Writer.Soundness.{IsSound, intern_string-Shows, ensure_thread-Shows}
use tracey_mctraceface.Reconstructor.{
  Reconstructor, new_reconstructor, intern_symbol, write_kind, write_pending, write_all,
  process_all,
}
use tracey_mctraceface.Reconstructor
use tracey_mctraceface.Reconstructor.Output.{write_all-tracker}
use tracey_mctraceface.Reconstructor.Cache.{
  Knows-Grows, IsNamed, Reads, Reads-trans, set_writer-Reads, intern_symbol-Reads, write_kind-Reads,
  kind_events, intern_string-Knows,
}

abbrev pub write_events : ThreadWrite → List ReadEvent
write_events w = kind_events w.write.event.kind w.key w.write.event.symbol w.write.time

abbrev pub all_events : List ThreadWrite → List ReadEvent
all_events [] = []
all_events (w ∷ ws) = write_events w ++ all_events ws

all_events-append :
    (ws us : List ThreadWrite) → all_events (ws ++ us) ≡ all_events ws ++ all_events us
all_events-append [] us = refl
all_events-append (w ∷ ws) us =
    ap (λ l. write_events w ++ l) (all_events-append ws us)
    ∙ sym (append_assoc (write_events w) (all_events ws) (all_events us))

-- A write takes at most five numbers: its symbol, three for a new thread, and "[unknown]".
write_pending-Reads :
    (k : ThreadKey) (w : Write) (r : Reconstructor)
    → IsNamed r
    → r.writer.next_string_id + 4 ≤ max_string_id
    → Reads 5 (kind_events w.event.kind k w.event.symbol w.time) r (write_pending k w r)
unfolding write_pending
write_pending-Reads k w r v room =
    let (r', id) = intern_symbol w.event.symbol r in
    let (interned, name, same) = intern_symbol-Reads w.event.symbol r v (omega (arith, room)) in
    let (writer, slot) = ensure_thread k r'.writer in
    let g = ensure_thread-Grows k r'.writer (omega (arith, room, interned.grows.next_le)) in
    let ensured =
      set_writer-Reads 3 r' writer interned.named
        (ensure_thread-Shows k r'.writer interned.named.sound).sound g
        (ensure_thread-events k r'.writer) in
    let known = (ensure_thread-slot k r'.writer interned.named.sound.threads).0 in
    Reads-trans 1 4 [] _ interned (
      Reads-trans 3 1 [] _ ensured (
        write_kind-Reads w.event.kind k w.event.symbol slot id w.time
          (record r' { writer = writer }) ensured.named known
          (Knows-Grows 3 r'.writer writer (shorten_symbol w.event.symbol) id g name)
          (omega (arith, room, interned.grows.next_le, g.next_le))))

nothing-Reads : (r : Reconstructor) → IsNamed r → Reads 0 [] r r
nothing-Reads r v =
    set_writer-Reads 0 r r.writer v v.sound (Grows-same r.writer r.writer refl refl) refl

write_all-Reads :
    (ws : List ThreadWrite) (r : Reconstructor)
    → IsNamed r
    → r.writer.next_string_id + 5 * length ws ≤ max_string_id + 1
    → Reads (5 * length ws) (all_events ws) r (write_all ws r)
unfolding write_all
write_all-Reads [] r v room = nothing-Reads r v
write_all-Reads (w ∷ ws) r v room =
    let s = write_pending-Reads w.key w.write r v (omega (arith, room)) in
    let rest =
      write_all-Reads ws (write_pending w.key w.write r) s.named
        (omega (arith, room, s.grows.next_le)) in
    subst (λ n. Reads n (all_events (w ∷ ws)) r (write_all (w ∷ ws) r)) (omega arith)
      (Reads-trans 5 (5 * length ws) (write_events w) (all_events ws) s rest)

set_tracker-IsNamed :
    (r : Reconstructor) (t : Tracker) → IsNamed r → IsNamed (record r { tracker = t })
set_tracker-IsNamed r t v = record { sound = v.sound; category = v.category; cache = v.cache }

set_tracker-Reads :
    {n : ℕ} {es : List ReadEvent} (r s : Reconstructor) (t : Tracker)
    → Reads n es (record r { tracker = t }) s
    → Reads n es r s
set_tracker-Reads r s t a = record { named = a.named; grows = a.grows; read = a.read }

process_all-Reads :
    (es : List Event) (r : Reconstructor)
    → IsNamed r
    → r.writer.next_string_id + 5 * length (run es r.tracker).1 ≤ max_string_id + 1
    → Reads (5 * length (run es r.tracker).1) (all_events (run es r.tracker).1) r (process_all es r)
unfolding process_all Reconstructor.process_event Reconstructor.finish run
process_all-Reads [] r v room =
    let (t, ws) = Tracker.finish r.tracker in
    set_tracker-Reads r _ t
      (write_all-Reads ws (record r { tracker = t }) (set_tracker-IsNamed r t v) room)
process_all-Reads (e ∷ es) r v room =
    let (t, ws) = Tracker.process_event e r.tracker in
    let us = (run es t).1 in
    let r₀ = record r { tracker = t } in
    let r' = write_all ws r₀ in
    let same = write_all-tracker ws r₀ in
    let total = length-append ws us in
    let s = write_all-Reads ws r₀ (set_tracker-IsNamed r t v) (omega (arith, room, total)) in
    let tail : (run es r'.tracker).1 ≡ us = ap (λ x. (run es x).1) same in
    let rest = process_all-Reads es r' s.named (
      subst (λ l. r'.writer.next_string_id + 5 * length l ≤ max_string_id + 1) (sym tail)
        (omega (arith, room, total, s.grows.next_le))) in
    let rest' = subst (λ l. Reads (5 * length l) (all_events l) r' (process_all es r')) tail rest in
    let both =
      Reads-trans (5 * length ws) (5 * length us) (all_events ws) (all_events us) s rest' in
    set_tracker-Reads r _ t (
      subst (λ l. Reads (5 * length (ws ++ us)) l r₀ (process_all es r'))
        (sym (all_events-append ws us))
        (subst (λ n. Reads n (all_events ws ++ all_events us) r₀ (process_all es r'))
          (omega (arith, total)) both))

find-nothing : (s : Bytes) (id : ℕ) → find equal s [] ≡ some id → ⊥
unfolding find
find-nothing s id f = ground arith

-- From a writer in order with enough numbers left for the session (one, and five for each event that
-- the tracker asks for), the events that a reader of the whole output sees are those seen before, then, in
-- order, exactly the begin and end events that the tracker asks for, each under its own thread, with
-- the category "trace" and the name of its shortened symbol (as truncated): no number that the
-- reconstructor has cached goes stale.
pub process_all-reads :
    (es : List Event) (w : FxtWriter)
    → IsSound w
    → w.next_string_id + 5 * length (run es empty_tracker).1 ≤ max_string_id
    → (reader (process_all es (new_reconstructor w)).writer).events
      ≡ (reader w).events ++ all_events (run es empty_tracker).1
unfolding new_reconstructor
process_all-reads es w v room =
    let r = new_reconstructor w in
    let g = intern_string-Grows (codes "trace") w (omega (arith, room)) in
    let named : IsNamed r = record {
      sound = (intern_string-Shows (codes "trace") w v).sound;
      category = intern_string-Knows (codes "trace") w;
      cache = λ s id f. absurd (find-nothing s id f);
    } in
    (process_all-Reads es r named (omega (arith, room, g.next_le))).read
    ∙ ap (λ l. l ++ all_events (run es empty_tracker).1)
        (intern_string-SameThreads (codes "trace") w).events
