-- ===== src/Pipeline/Reading.antt =====
-- The loop over the lines: all lines first, and then all events.
use tracey_mctraceface.Base.{
  ◌≡◌, refl, sym, ap, ◌∙◌, List, [], ◌∷◌, Option, none, some, Bytes, Bool-cases, inl, inr,
}
use tracey_mctraceface.Event.{Event}
use tracey_mctraceface.Filter.{should_pass}
use tracey_mctraceface.Parser.{PerfScriptParser, new_parser, feed_line, feed_lines, push}
use tracey_mctraceface.Parser
use tracey_mctraceface.Pipeline.{Decoder, take_event, read_lines}

-- All the events that the parser yields, through the filter and the reconstructor.
abbrev pub take_all : List Event → Decoder → Decoder
take_all [] d = d
take_all (e ∷ es) d = take_all es (take_event (some e) d)

abbrev pub set_parser : PerfScriptParser → Decoder → Decoder
set_parser p d = record d { parser = p }

take_event-set_parser :
    (e : Option Event) (p : PerfScriptParser) (d : Decoder)
    → take_event e (set_parser p d) ≡ set_parser p (take_event e d)
unfolding take_event
take_event-set_parser none p d = refl
take_event-set_parser (some e) p d = elim (Bool-cases (should_pass d.filter e).1) [
  | inl keep ↦ rw keep refl
  | inr drop ↦ rw drop refl
]

take_all-set_parser :
    (es : List Event) (p : PerfScriptParser) (d : Decoder)
    → take_all es (set_parser p d) ≡ set_parser p (take_all es d)
take_all-set_parser [] p d = refl
take_all-set_parser (e ∷ es) p d =
    ap (take_all es) (take_event-set_parser (some e) p d)
    ∙ take_all-set_parser es p (take_event (some e) d)

take_all-push :
    (e : Option Event) (es : List Event) (d : Decoder)
    → take_all (push e es) d ≡ take_all es (take_event e d)
unfolding take_event
take_all-push none es d = refl
take_all-push (some e) es d = refl

take_event-parser : (e : Option Event) (d : Decoder) → (take_event e d).parser ≡ d.parser
take_event-parser e d = ap (λ (x : Decoder). x.parser) (take_event-set_parser e d.parser d)

-- Line by line is the same as all lines first and then all events.
pub read_lines-take_all :
    (lines : List Bytes) (d : Decoder)
    → set_parser new_parser (read_lines lines d)
      ≡ set_parser new_parser (take_all (feed_lines lines d.parser) d)
unfolding read_lines feed_lines
read_lines-take_all [] d =
    let (p, e) = Parser.finish d.parser in
    ap (set_parser new_parser)
      (take_event-set_parser e p d ∙ ap (set_parser p) (sym (take_all-push e [] d)))
read_lines-take_all (line ∷ lines) d =
    let (p, e) = feed_line line d.parser in
    let d' = take_event e (set_parser p d) in
    read_lines-take_all lines d'
    ∙ ap (λ q. set_parser new_parser (take_all (feed_lines lines q) d'))
        (take_event-parser e (set_parser p d))
    ∙ ap (λ x. set_parser new_parser (take_all (feed_lines lines p) x))
        (take_event-set_parser e p d)
    ∙ ap (set_parser new_parser) (take_all-set_parser (feed_lines lines p) p (take_event e d))
    ∙ ap (set_parser new_parser) (sym (take_all-push e (feed_lines lines p) d))
