-- ===== src/Tests/Serving.antt =====
-- The server at concrete requests and connections.
use tracey_mctraceface.Base.{
  ◌≡◌, ◌++◌, true, List, [], ◌∷◌, none, some, Bytes, codes, if◌then◌else◌,
}
use tracey_mctraceface.Base.Int.{pos, negsuc}
use tracey_mctraceface.Parser.Scan.{value_or}
use tracey_mctraceface.Server.{Client, Round, not_ready, accepted, Setup, serve_trace, crlf}
use tracey_mctraceface.Server.Answers.{Answered, opens, serves, serve_trace-Answered}

abbrev get_trace : Bytes
get_trace = codes "GET /trace HTTP/1.1" ++ crlf

abbrev small_trace : Bytes
small_trace = 1 ∷ 2 ∷ 3 ∷ []

-- A connection that takes five bytes, then fails once.
abbrev slow_client : Client
slow_client = record { received = []; sends = pos 5 ∷ negsuc 0 ∷ []; closes = 0 }

abbrev good_setup : Setup
good_setup = record { has_socket = true; binds = true; listens = true; reason = [] }

abbrev two_rounds : List Round
two_rounds = not_ready ∷ accepted (some get_trace) slow_client ∷ accepted none slow_client ∷ []

serve_trace-Answered_example :
    let served = serve_trace (codes "t.fxt") 8080 (some small_trace) good_setup two_rounds in
    (served.server_closes ≡ (if opens (some small_trace) good_setup then 1 else 0))
    × (cs : List Client) × (served.clients ≡ some cs)
    × Answered
        (value_or [] (some small_trace))
        (if serves (some small_trace) good_setup then two_rounds else [])
        cs
serve_trace-Answered_example =
    serve_trace-Answered (codes "t.fxt") 8080 (some small_trace) good_setup two_rounds
