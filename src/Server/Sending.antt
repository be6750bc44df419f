-- ===== src/Server/Sending.antt =====
-- lib/trace_server.cpp: what arrives of what `send_all` is given.
use tracey_mctraceface.Base.{
  ℕ, zero, suc, ◌≤◌, ◌≡◌, refl, sym, ap, ◌∙◌, subst, true, List, [], ◌∷◌, ◌++◌, append-nil,
  append_assoc, length-drop, Option, some, Bytes, if◌then◌else◌, length, take, drop, arith, All,
}
use tracey_mctraceface.Base.Int.{ℤ, pos, negsuc, is_positive}
use tracey_mctraceface.Sink.Contract.{concat}
use tracey_mctraceface.Server.{Client, send, send_with, size_of, send_loop, send_all, send_parts}

-- No call of `send` on the connection will fail or send nothing.
abbrev pub Sends : List ℤ → Type 0
Sends = All (λ n. is_positive n ≡ true)

-- What a run of calls leaves of a connection that was to get `bytes`: it ends, what has arrived is the
-- first of them, all where no call fails, and the connection is not closed.
abbrev pub Delivers : Option Client → Client → Bytes → Type 0
Delivers out c bytes =
    (c' : Client) × (rest : Bytes) × (out ≡ some c')
    × (c.received ++ bytes ≡ c'.received ++ rest)
    × (c'.closes ≡ c.closes)
    × (Sends c.sends → (rest ≡ []) × Sends c'.sends)

-- The same from a connection that has had the first part before.
resume :
    (out : Option Client) (c mid : Client) (sent rest : Bytes)
    → mid.received ≡ c.received ++ sent
    → mid.closes ≡ c.closes
    → (Sends c.sends → Sends mid.sends)
    → Delivers out mid rest
    → Delivers out c (sent ++ rest)
resume out c mid sent rest got same keeps (c', left, e, split, closes, all) = (
  c',
  left,
  e,
  sym (append_assoc c.received sent rest) ∙ (ap (λ x. x ++ rest) (sym got) ∙ split),
  closes ∙ same,
  λ h. all (keeps h),
)

taken-dropped : (n : ℕ) (xs : Bytes) → take n xs ++ drop (length (take n xs)) xs ≡ xs
taken-dropped zero xs = refl
taken-dropped (suc n) [] = refl
taken-dropped (suc n) (x ∷ xs) = ap (◌∷◌ x) (taken-dropped n xs)

all-dropped : (xs : Bytes) → xs ++ drop (length xs) xs ≡ xs
all-dropped [] = refl
all-dropped (x ∷ xs) = ap (◌∷◌ x) (all-dropped xs)

failed :
    (c mid : Client) (bytes : Bytes)
    → mid.received ≡ c.received
    → mid.closes ≡ c.closes
    → ¬ Sends c.sends
    → Delivers (some mid) c bytes
failed c mid bytes same closes fails =
    (mid, bytes, refl, ap (λ x. x ++ bytes) (sym same), closes, λ h. absurd (fails h))

send_step :
    (fuel b : ℕ) (bytes : Bytes) (c : Client) (sends : List ℤ)
    → length (b ∷ bytes) ≤ suc fuel
    → ((rest : Bytes) (c' : Client)
        → length rest ≤ fuel
        → Delivers (send_loop fuel rest c') c' rest)
    → let (n, c') = send_with (b ∷ bytes) c sends in
      Delivers
        (if is_positive n then send_loop fuel (drop (size_of n) (b ∷ bytes)) c' else some c')
        (record c { sends = sends })
        (b ∷ bytes)
send_step fuel b bytes c [] h ih =
    let sent = b ∷ bytes in
    let left = drop (length bytes) bytes in
    let mid = record c { received = c.received ++ sent; sends = [] } in
    subst (Delivers _ (record c { sends = [] })) (ap (◌∷◌ b) (all-dropped bytes)) (
      resume _ (record c { sends = [] }) mid sent left refl refl (λ h. tt)
        (ih left mid (omega (arith, length-drop (length bytes) bytes))))
send_step fuel b bytes c (pos zero ∷ sends) h ih =
    failed (record c { sends = pos zero ∷ sends }) _ (b ∷ bytes) (append-nil c.received) refl
      (λ fails. ground arith)
send_step fuel b bytes c (pos (suc n) ∷ sends) h ih =
    let sent = b ∷ take n bytes in
    let left = drop (length (take n bytes)) bytes in
    let mid = record c { received = c.received ++ sent; sends = sends } in
    subst (Delivers _ (record c { sends = pos (suc n) ∷ sends }))
      (ap (◌∷◌ b) (taken-dropped n bytes))
      (resume _ (record c { sends = pos (suc n) ∷ sends }) mid sent left refl refl (λ h. h.1)
        (ih left mid (omega (arith, length-drop (length (take n bytes)) bytes))))
send_step fuel b bytes c (negsuc n ∷ sends) h ih =
    failed (record c { sends = negsuc n ∷ sends }) _ (b ∷ bytes) refl refl (λ fails. ground arith)

send_loop-Delivers :
    (fuel : ℕ) (bytes : Bytes) (c : Client)
    → length bytes ≤ fuel
    → Delivers (send_loop fuel bytes c) c bytes
unfolding send_loop send
send_loop-Delivers zero [] c h = (c, [], refl, refl, refl, λ s. (refl, s))
send_loop-Delivers (suc fuel) [] c h = (c, [], refl, refl, refl, λ s. (refl, s))
send_loop-Delivers zero (b ∷ bytes) c h = absurd (omega arith)
send_loop-Delivers (suc fuel) (b ∷ bytes) c h =
    send_step fuel b bytes c c.sends h (send_loop-Delivers fuel)

-- Whatever `send` returns from call to call, `send_all` ends; what has arrived then is the first of the
-- bytes that it was given, all of them where each call sends something.
pub send_all-Delivers : (bytes : Bytes) (c : Client) → Delivers (send_all bytes c) c bytes
unfolding send_all
send_all-Delivers bytes c = send_loop-Delivers (length bytes) bytes c (omega arith)

-- The same for one call after the other: where none fails, all the parts arrive, in order.
pub send_parts-arrive :
    (parts : List Bytes) (c : Client)
    → (c' : Client) × (send_parts parts c ≡ some c')
      × (c'.closes ≡ c.closes)
      × (Sends c.sends → c'.received ≡ c.received ++ concat parts)
unfolding send_parts concat
send_parts-arrive [] c = (c, refl, refl, λ s. sym (append-nil c.received))
send_parts-arrive (part ∷ parts) c =
    let (mid, rest, e, split, closes, all) = send_all-Delivers part c in
    let (c', goes, same, arrive) = send_parts-arrive parts mid in
    (c', rw e goes, same ∙ closes, λ s. arrived mid c' rest split (all s) arrive)
  where
    arrived :
        (mid c' : Client) (rest : Bytes)
        → c.received ++ part ≡ mid.received ++ rest
        → (rest ≡ []) × Sends mid.sends
        → (Sends mid.sends → c'.received ≡ mid.received ++ concat parts)
        → c'.received ≡ c.received ++ (part ++ concat parts)
    arrived mid c' rest split (none_left, sends) arrive =
        let whole : mid.received ≡ c.received ++ part =
          sym (append-nil mid.received) ∙ (ap (◌++◌ mid.received) (sym none_left) ∙ sym split) in
        arrive sends
        ∙ (ap (λ x. x ++ concat parts) whole ∙ append_assoc c.received part (concat parts))
