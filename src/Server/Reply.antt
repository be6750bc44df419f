-- ===== src/Server/Reply.antt =====
-- lib/trace_server.cpp: the answers as a client reads them.
use tracey_mctraceface.Base.{
  ℕ, ◌^◌, true, false, [], ◌∷◌, ◌++◌, Option, none, some, Bytes, codes, starts_with, if◌then◌else◌,
  ◌==◌, length, drop,
}
use tracey_mctraceface.Parser.Scan.{decimal_digit, from_chars}
use tracey_mctraceface.Parser.Numbers.{Digits}
use tracey_mctraceface.Server.{crlf}

-- What stands behind the first occurrence of a mark.
unfoldable pub behind : Bytes → Bytes → Option Bytes
behind mark [] = none
behind mark (c ∷ cs) = elim (starts_with (c ∷ cs) mark) [
  | true ↦ some (drop (length mark) (c ∷ cs))
  | false ↦ behind mark cs
]

-- A client's reading of a reply: the body, where the status is 200 and the body is as long as the
-- header says.
abbrev pub if_long : Option ℕ → Bytes → Option Bytes
if_long none body = none
if_long (some size) body = if length body == size then some body else none

abbrev pub read_size : Option Bytes → Option ℕ
read_size none = none
read_size (some s) = from_chars decimal_digit 10 (2 ^ 64) s

abbrev pub body_with : Option ℕ → Option Bytes → Option Bytes
body_with size none = none
body_with size (some body) = if_long size body

unfoldable pub read_reply : Bytes → Option Bytes
unfolding behind
read_reply reply =
    if starts_with reply (codes "HTTP/1.1 200 OK" ++ crlf)
    then body_with (read_size (behind (codes "Content-Length: ") reply))
        (behind (crlf ++ crlf) reply)
    else none
