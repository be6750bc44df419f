-- ===== src/Server/Answers.antt =====
-- lib/trace_server.cpp: what the clients of the server get, and that every connection is closed.
use tracey_mctraceface.Base.{
  ℕ, suc, ◌≡◌, refl, sym, ap, inl, inr, Bool, not, ◌&&◌, List, [], ◌∷◌, ◌++◌, append-nil, Option,
  none, some, Bytes, is_empty, if◌then◌else◌, Bool-cases,
}
use tracey_mctraceface.Parser.Scan.{value_or}
use tracey_mctraceface.Sink.Contract.{concat}
use tracey_mctraceface.Server.{
  Client, response, handle_request, close_client, Round, not_ready, accept_failed, accepted,
  serve_rounds, Setup, serve_trace,
}
use tracey_mctraceface.Server.Sending.{Sends, send_parts-arrive}

-- What a request is answered with: nothing where none could be read.
abbrev pub answer : Option Bytes → Bytes → Bytes
answer none trace = []
answer (some request) trace = concat (response request trace)

-- Whatever a client asks and whatever its connection does, the request is dealt with and the connection
-- closed once; where no call of `send` fails the client has got exactly the answer.
pub handle_request-closes :
    (request : Option Bytes) (trace : Bytes) (c : Client)
    → (c' : Client) × (handle_request request trace c ≡ some c')
      × (c'.closes ≡ suc c.closes)
      × (Sends c.sends → c'.received ≡ c.received ++ answer request trace)
unfolding handle_request
handle_request-closes none trace c = (close_client c, refl, refl, λ s. sym (append-nil c.received))
handle_request-closes (some request) trace c =
    let (c', goes, same, arrive) = send_parts-arrive (response request trace) c in
    (close_client c', rw goes refl, ap suc same, arrive)

-- The connections that a run has accepted, each dealt with and closed once.
unfoldable pub Answered : Bytes → List Round → List Client → Type 0
Answered trace [] [] = Unit
Answered trace [] (c' ∷ cs) = ⊥
Answered trace (not_ready ∷ rounds) cs = Answered trace rounds cs
Answered trace (accept_failed ∷ rounds) cs = Answered trace rounds cs
Answered trace (accepted request c ∷ rounds) [] = ⊥
Answered trace (accepted request c ∷ rounds) (c' ∷ cs) =
    (c'.closes ≡ suc c.closes)
    × (Sends c.sends → c'.received ≡ c.received ++ answer request trace)
    × Answered trace rounds cs

serve_rounds-Answered :
    (trace : Bytes) (rounds : List Round)
    → (cs : List Client) × (serve_rounds trace rounds ≡ some cs) × Answered trace rounds cs
unfolding serve_rounds Answered
serve_rounds-Answered trace [] = ([], refl, tt)
serve_rounds-Answered trace (not_ready ∷ rounds) = serve_rounds-Answered trace rounds
serve_rounds-Answered trace (accept_failed ∷ rounds) = serve_rounds-Answered trace rounds
serve_rounds-Answered trace (accepted request c ∷ rounds) =
    let (c', goes, closes, arrive) = handle_request-closes request trace c in
    let (cs, rest, all) = serve_rounds-Answered trace rounds in
    (c' ∷ cs, rw (goes, rest) refl, (closes, arrive, all))

-- Whether `socket` is called with success, and whether the loop is reached.
abbrev pub opens : Option Bytes → Setup → Bool
opens file setup = not (is_empty (value_or [] file)) && setup.has_socket

abbrev pub serves : Option Bytes → Setup → Bool
serves file setup = opens file setup && (setup.binds && setup.listens)

-- Whatever the file and the system's answers are, `serve_trace` closes the socket that it has opened
-- exactly once, on each way out, and deals with every connection that it has accepted, which it closes
-- once; it accepts none unless the file has bytes and the socket is bound and listens.
pub serve_trace-Answered :
    (path : Bytes) (port : ℕ) (file : Option Bytes) (setup : Setup) (rounds : List Round)
    → let served = serve_trace path port file setup rounds in
      (served.server_closes ≡ (if opens file setup then 1 else 0))
      × (cs : List Client) × (served.clients ≡ some cs)
      × Answered (value_or [] file) (if serves file setup then rounds else []) cs
unfolding serve_trace Answered
serve_trace-Answered path port file setup rounds =
    let trace = value_or [] file in
    elim (Bool-cases (is_empty trace)) [
      | inl nothing ↦ rw nothing (refl, [], refl, tt)
      | inr filled ↦ elim (Bool-cases setup.has_socket) [
        | inr no_socket ↦ rw (filled, no_socket) (refl, [], refl, tt)
        | inl socket ↦ elim (Bool-cases setup.binds) [
          | inr unbound ↦ rw (filled, socket, unbound) (refl, [], refl, tt)
          | inl bound ↦ elim (Bool-cases setup.listens) [
            | inr deaf ↦ rw (filled, socket, bound, deaf) (refl, [], refl, tt)
            | inl listens ↦
                let (cs, goes, all) = serve_rounds-Answered trace rounds in
                rw (filled, socket, bound, listens) (refl, cs, goes, all)
          ]
        ]
      ]
    ]
