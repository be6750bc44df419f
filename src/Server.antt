-- ===== src/Server.antt =====
-- lib/trace_server.cpp: the server that shows a trace file. What the system answers to the calls on
-- sockets is an argument.
pub mod Page
pub mod Sending
pub mod Answers
pub mod Reply
use tracey_mctraceface.Base.{
  ℕ, zero, suc, ◌+◌, ◌-◌, Bool, true, false, not, ◌&&◌, ◌||◌, ◌==◌, List, [], ◌∷◌, ◌++◌, Option,
  none, some, Bytes, codes, starts_with, is_empty, if◌then◌else◌, length, take, drop,
}
use tracey_mctraceface.Base.Int.{ℤ, pos, negsuc, is_positive}
use tracey_mctraceface.Parser.Scan.{find_text, value_or}
use tracey_mctraceface.Server.Page.{opener_html}
use tracey_mctraceface.Writer.{decimal}

-- A connection: what the client has been sent, what the next calls of `send` return at most (those
-- behind them take all), and how often it has been closed.
pub record Client : Type 0 where
  pub received : Bytes
  pub sends : List ℤ
  pub closes : ℕ

-- `send`: what it returns, and the connection after it.
abbrev pub send_with : Bytes → Client → List ℤ → ℤ × Client
send_with bytes c [] = (pos (length bytes), record c { received = c.received ++ bytes; sends = [] })
send_with bytes c (pos most ∷ sends) = (
  pos (length (take most bytes)),
  record c { received = c.received ++ take most bytes; sends = sends },
)
send_with bytes c (negsuc n ∷ sends) = (negsuc n, record c { sends = sends })

unfoldable pub send : Bytes → Client → ℤ × Client
send bytes c = send_with bytes c c.sends

-- `static_cast<std::size_t>(n)` of a number that is positive.
abbrev pub size_of : ℤ → ℕ
size_of (pos n) = n
size_of (negsuc n) = 0

-- The loop of `send_all`, over what is left to send; `none` where it is out of fuel.
unfoldable pub send_loop : ℕ → Bytes → Client → Option Client
send_loop fuel [] c = some c
send_loop zero (b ∷ bytes) c = none
send_loop (suc fuel) (b ∷ bytes) c =
    let (n, c') = send (b ∷ bytes) c in
    let rest = send_loop fuel (drop (size_of n) (b ∷ bytes)) c' in
    if is_positive n then rest else some c'

-- Each round that goes on has sent a byte, so their count is enough fuel.
unfoldable pub send_all : Bytes → Client → Option Client
unfolding send_loop
send_all bytes c = send_loop (length bytes) bytes c

unfoldable pub request_path : Bytes → Bytes
request_path request = elim (find_text (codes " ") request) [
  | none ↦ codes "/"
  | some start ↦ elim (find_text (codes " ") (drop (suc start) request)) [
    | none ↦ codes "/"
    | some size ↦ take size (drop (suc start) request)
  ]
]

abbrev pub crlf : Bytes
crlf = 13 ∷ 10 ∷ []

unfoldable pub ok_header : Bytes → ℕ → Bytes
ok_header content_type size =
    codes "HTTP/1.1 200 OK"
    ++ (crlf
        ++ (codes "Content-Type: "
            ++ (content_type
                ++ (crlf ++ (codes "Content-Length: " ++ (decimal size ++ (crlf ++ crlf)))))))

abbrev pub bad_request : Bytes
bad_request = codes "HTTP/1.1 400 Bad Request" ++ (crlf ++ crlf)

-- What is sent to a client, one call of `send_all` after the other.
unfoldable pub response : Bytes → Bytes → List Bytes
response request trace =
    if starts_with request (codes "GET") && starts_with (request_path request) (codes "/trace")
    then ok_header (codes "application/octet-stream") (length trace) ∷ trace ∷ []
    else if starts_with request (codes "GET")
    then ok_header (codes "text/html") (length opener_html) ∷ opener_html ∷ []
    else bad_request ∷ []

abbrev pub then_send : (Client → Option Client) → Option Client → Option Client
then_send next none = none
then_send next (some c) = next c

unfoldable pub send_parts : List Bytes → Client → Option Client
unfolding send_all
send_parts [] c = some c
send_parts (part ∷ parts) c = then_send (send_parts parts) (send_all part c)

abbrev pub close_client : Client → Client
close_client c = record c { closes = suc c.closes }

-- `request` is what `recv` has read, `none` where it returns 0 or an error.
unfoldable pub handle_request : Option Bytes → Bytes → Client → Option Client
handle_request none trace c = some (close_client c)
handle_request (some request) trace c =
    then_send (λ c. some (close_client c)) (send_parts (response request trace) c)

-- A round of the loop of `serve_trace`: `select` reports nothing, `accept` fails, or it gives a
-- connection.
pub data Round : Type 0 where
  not_ready accept_failed : Round
  accepted : Option Bytes → Client → Round

abbrev pub keep_client : Option Client → Option (List Client) → Option (List Client)
keep_client (some c) (some cs) = some (c ∷ cs)
keep_client _ _ = none

-- The connections as the loop leaves them, up to the round in which `server_running` is found 0.
unfoldable pub serve_rounds : Bytes → List Round → Option (List Client)
unfolding handle_request
serve_rounds trace [] = some []
serve_rounds trace (not_ready ∷ rounds) = serve_rounds trace rounds
serve_rounds trace (accept_failed ∷ rounds) = serve_rounds trace rounds
serve_rounds trace (accepted request c ∷ rounds) =
    keep_client (handle_request request trace c) (serve_rounds trace rounds)

-- What the system answers to `serve_trace`, with what `strerror` says.
pub record Setup : Type 0 where
  pub has_socket : Bool
  pub binds : Bool
  pub listens : Bool
  pub reason : Bytes

-- What a run of `serve_trace` does: the lines on `std::cerr`, how often the server's socket is closed,
-- and the connections.
pub record Served : Type 0 where
  pub messages : List Bytes
  pub server_closes : ℕ
  pub clients : Option (List Client)

abbrev pub fails : Bytes → ℕ → Served
fails message closes = record { messages = message ∷ []; server_closes = closes; clients = some [] }

-- A path as a stream prints it: between quotes, with a backslash before each quote and backslash.
unfoldable pub quote_from : Bytes → Bytes
quote_from [] = b'"' ∷ []
quote_from (c ∷ cs) =
    let rest = quote_from cs in if c == b'"' || c == 92 then 92 ∷ c ∷ rest else c ∷ rest

unfoldable pub quoted : Bytes → Bytes
unfolding quote_from
quoted path = b'"' ∷ quote_from path

unfoldable pub serve_trace : Bytes → ℕ → Option Bytes → Setup → List Round → Served
unfolding serve_rounds
serve_trace path port file setup rounds =
    let trace = value_or [] file in
    if is_empty trace
    then fails (codes "error: could not read " ++ quoted path) 0
    else if not setup.has_socket
    then fails (codes "error: socket() failed: " ++ setup.reason) 0
    else if not setup.binds
    then fails
        (codes "error: bind() failed on port " ++ (decimal port ++ (codes ": " ++ setup.reason))) 1
    else if not setup.listens
    then fails (codes "error: listen() failed: " ++ setup.reason) 1
    else record {
      messages =
          (codes "Serving trace at http://127.0.0.1:" ++ decimal port)
          ∷ codes "Opening browser..."
          ∷ codes "Press Ctrl+C to stop."
          ∷ []
          ∷ codes "Stopping server."
          ∷ [];
      server_closes = 1;
      clients = serve_rounds trace rounds;
    }
