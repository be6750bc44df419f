-- ===== src/Pipeline/Whole.antt =====
-- The parser, the filter, the tracker and the writer together.
use tracey_mctraceface.Base.{
  ℕ, suc, ◌+◌, ◌%◌, ◌^◌, ◌≡◌, refl, sym, ap, ◌∙◌, List, [], ◌∷◌, ◌++◌, some, Bytes, codes, length,
  true, false, Bool-cases, inl, inr, arith, subst,
}
use tracey_mctraceface.Event.{Event}
use tracey_mctraceface.Filter.{Config, TraceFilter, init, should_pass, filter_all}
use tracey_mctraceface.Filter.Slices.{expected, filter_all-slices}
use tracey_mctraceface.Parser.{new_parser, feed_lines}
use tracey_mctraceface.Parser.Groups.{events_of, group_lines, feed_lines-groups}
use tracey_mctraceface.Reconstructor.{Reconstructor, new_reconstructor, process_all}
use tracey_mctraceface.Reconstructor
use tracey_mctraceface.Reconstructor.Output.{all_marks, process_all-shows}
use tracey_mctraceface.Table.{find}
use tracey_mctraceface.Tracker.{empty_tracker, run}
use tracey_mctraceface.Writer.{
  new_writer, write_preamble, pad_to_word, padding, words_for_bytes, provider_name_len,
}
use tracey_mctraceface.Writer.Framing.{write_preamble-IsFramed, frame}
use tracey_mctraceface.Writer.Soundness.{IsSound, marks}
use tracey_mctraceface.Writer.Reader.{read_all}
use tracey_mctraceface.Pipeline.{
  Decoder, preamble_writer, new_decoder, take_event, decode_perf_data,
}
use tracey_mctraceface.Pipeline.Reading.{take_all, read_lines-take_all}

abbrev counted : Event → Decoder → Decoder
counted e d = record d {
  filter = (should_pass d.filter e).0;
  reconstructor = Reconstructor.process_event e d.reconstructor;
  event_count = (d.event_count + 1) % 2 ^ 64;
}

abbrev skipped : Event → Decoder → Decoder
skipped e d = record d { filter = (should_pass d.filter e).0 }

take_event-counted :
    (e : Event) (d : Decoder)
    → (should_pass d.filter e).1 ≡ true
    → take_event (some e) d ≡ counted e d
unfolding take_event
take_event-counted e d keep = rw keep refl

take_event-skipped :
    (e : Event) (d : Decoder)
    → (should_pass d.filter e).1 ≡ false
    → take_event (some e) d ≡ skipped e d
unfolding take_event
take_event-skipped e d drop = rw drop refl

filter_all-keep :
    (e : Event) (es : List Event) (f : TraceFilter)
    → (should_pass f e).1 ≡ true
    → (filter_all f (e ∷ es)).1 ≡ e ∷ (filter_all (should_pass f e).0 es).1
unfolding filter_all
filter_all-keep e es f keep = rw keep refl

filter_all-drop :
    (e : Event) (es : List Event) (f : TraceFilter)
    → (should_pass f e).1 ≡ false
    → (filter_all f (e ∷ es)).1 ≡ (filter_all (should_pass f e).0 es).1
unfolding filter_all
filter_all-drop e es f drop = rw drop refl

one_more : (a n : ℕ) → ((a + 1) % 2 ^ 64 + n) % 2 ^ 64 ≡ (a + suc n) % 2 ^ 64
one_more a n = omega arith

-- The events that pass the filter are those that the reconstructor gets, and they are counted.
take_all-filter_all :
    (es : List Event) (d : Decoder)
    → (Reconstructor.finish (take_all es d).reconstructor
        ≡ process_all (filter_all d.filter es).1 d.reconstructor)
      × ((take_all es d).event_count % 2 ^ 64
          ≡ (d.event_count + length (filter_all d.filter es).1) % 2 ^ 64)
unfolding filter_all process_all
take_all-filter_all [] d = (refl, omega arith)
take_all-filter_all (e ∷ es) d = elim (Bool-cases (should_pass d.filter e).1) [
  | inl keep ↦
      let taken = take_event-counted e d keep in
      let kept = filter_all-keep e es d.filter keep in
      let (rest, count) = take_all-filter_all es (counted e d) in
      (
        ap (λ x. Reconstructor.finish (take_all es x).reconstructor) taken
            ∙ rest
            ∙ sym (ap (λ l. process_all l d.reconstructor) kept),
        ap (λ x. (take_all es x).event_count % 2 ^ 64) taken
            ∙ count
            ∙ one_more d.event_count (length (filter_all (should_pass d.filter e).0 es).1)
            ∙ sym (ap (λ l. (d.event_count + length l) % 2 ^ 64) kept),
      )
  | inr drop ↦
      let taken = take_event-skipped e d drop in
      let kept = filter_all-drop e es d.filter drop in
      let (rest, count) = take_all-filter_all es (skipped e d) in
      (
        ap (λ x. Reconstructor.finish (take_all es x).reconstructor) taken
            ∙ rest
            ∙ sym (ap (λ l. process_all l d.reconstructor) kept),
        ap (λ x. (take_all es x).event_count % 2 ^ 64) taken
            ∙ count
            ∙ sym (ap (λ l. (d.event_count + length l) % 2 ^ 64) kept),
      )
]

-- The events of a run of the decoder: those of the groups of the lines, in slices.
abbrev pub session : Config → List Bytes → List Event
session config lines = expected config (events_of (group_lines lines))

session-eq :
    (config : Config) (lines : List Bytes)
    → (filter_all (init config) (feed_lines lines new_parser)).1 ≡ session config lines
session-eq config lines =
    filter_all-slices config (feed_lines lines new_parser)
    ∙ ap (expected config) (feed_lines-groups lines)

-- The reconstructor of a run has had exactly the events of the groups of the lines that lie in the
-- slices, and its `finish`; and they are counted modulo 2^64.
pub decode_perf_data-session :
    (config : Config) (base_time_ns : ℕ) (lines : List Bytes)
    → let d = decode_perf_data config base_time_ns lines in
      (d.reconstructor
        ≡ process_all (session config lines) (new_reconstructor (preamble_writer base_time_ns)))
      × (d.event_count % 2 ^ 64 ≡ length (session config lines) % 2 ^ 64)
unfolding decode_perf_data new_decoder
decode_perf_data-session config base_time_ns lines =
    let d = new_decoder config base_time_ns in
    let all = read_lines-take_all lines d in
    let (rest, count) = take_all-filter_all (feed_lines lines new_parser) d in
    let same = session-eq config lines in
    (
      ap (λ (x : Decoder). Reconstructor.finish x.reconstructor) all
          ∙ rest
          ∙ ap (λ l. process_all l d.reconstructor) same,
      ap (λ (x : Decoder). x.event_count % 2 ^ 64) all
          ∙ count
          ∙ ap (λ l. (0 + length l) % 2 ^ 64) same
          ∙ ap (λ n. n % 2 ^ 64) (omega arith),
    )

-- The preamble is written in order, and tells a reader nothing yet.
pub preamble_writer-IsSound : (base_time_ns : ℕ) → IsSound (preamble_writer base_time_ns)
unfolding preamble_writer write_preamble pad_to_word padding words_for_bytes provider_name_len
    read_all find
preamble_writer-IsSound base_time_ns = record {
  framed =
      write_preamble-IsFramed (codes "tracey_mctraceface") 0 1000000000 0 base_time_ns new_writer
        (unfold frame in refl);
  strings = record {
    distinct = tt;
    below = tt;
    next_pos = omega arith;
    next_bound = omega arith;
    full = λ h. absurd (omega (arith, h));
    quiet = refl;
    known = λ s id f. absurd (ground arith);
  };
  threads = record { distinct = tt; slots = tt; known = λ k slot f. absurd (ground arith) };
}

preamble_writer-marks : (base_time_ns : ℕ) → marks (preamble_writer base_time_ns) ≡ []
unfolding preamble_writer write_preamble pad_to_word padding words_for_bytes provider_name_len
    read_all
preamble_writer-marks base_time_ns = refl

-- Whatever the lines and the configuration are, the output of a run is a sequence of whole records, a
-- reader of it has the strings and the threads of the writer's tables, and the events that it sees are,
-- in order, exactly the begin and end events that the tracker asks for over the session, each under its
-- own thread, of its own type, at its own time.
pub decode_perf_data-shows :
    (config : Config) (base_time_ns : ℕ) (lines : List Bytes)
    → let u = (decode_perf_data config base_time_ns lines).reconstructor.writer in
      IsSound u × (marks u ≡ all_marks (run (session config lines) empty_tracker).1)
decode_perf_data-shows config base_time_ns lines =
    let (e, count) = decode_perf_data-session config base_time_ns lines in
    subst
      (λ r.
        IsSound r.writer
        × (marks r.writer ≡ all_marks (run (session config lines) empty_tracker).1))
      (sym e)
      (let (sound, shown) =
          process_all-shows (session config lines) (preamble_writer base_time_ns)
            (preamble_writer-IsSound base_time_ns) in
        (
          sound,
          shown
              ∙ ap (λ l. l ++ all_marks (run (session config lines) empty_tracker).1)
                  (preamble_writer-marks base_time_ns),
        ))
