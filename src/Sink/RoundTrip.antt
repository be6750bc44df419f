-- ===== src/Sink/RoundTrip.antt =====
-- lib/compressed_sink.cpp: a whole session of `ZstdSink`, from the first write to the closed file.
use tracey_mctraceface.Base.{
  ℕ, zero, suc, ◌+◌, ◌<◌, ◌≡◌, refl, sym, ap, ◌∙◌, Bool, true, false, List, [], ◌∷◌, ◌++◌,
  append-nil, append_assoc, some, Bytes, length, drop, ◌==◌, ==_iff, arith, All,
}
use tracey_mctraceface.Base.Outcome.{ok, done}
use tracey_mctraceface.Sink.{Stream, fwrite}
use tracey_mctraceface.Sink.Contract.{concat}
use tracey_mctraceface.Sink.Zstd.{
  Zstd, write_output, put_output, next_round, write_loop, zstd_write, zstd_close, next_piece,
  zstd_session,
}
use tracey_mctraceface.Sink.Session.{
  budget, put_output-all, round_shrinks, write_loop-fine, write_loop-Wrote, close_loop-expands,
}

==_refl : (n : ℕ) → (n == n) ≡ true
==_refl n = (==_iff n n).1 refl

write_output-all :
    (produced : Bytes) (f : Stream)
    → f.shorts ≡ []
    → write_output produced f ≡ (ok done, put_output produced f)
unfolding write_output put_output fwrite
write_output-all [] f h = refl
write_output-all (b ∷ produced) f h = rw (h, ==_refl (length (b ∷ produced))) refl

module _ (z : Zstd) where
  open z use {Context, compress, expand, owed, most_owed, Wrote, owed_le}

  write_loop-round :
      (fuel b : ℕ) (input : Bytes) (c : Context) (f : Stream)
      → (compress c (b ∷ input) false).failed ≡ false
      → f.shorts ≡ []
      → let call = compress c (b ∷ input) false in
        write_loop z (suc fuel) (b ∷ input) c f
        ≡ write_loop z fuel
            (drop call.consumed (b ∷ input))
            call.context
            (put_output call.produced f)
  unfolding next_round
  write_loop-round fuel b input c f e s =
      let call = compress c (b ∷ input) false in
      let rest = write_loop z fuel (drop call.consumed (b ∷ input)) call.context in
      write_loop-fine z fuel b input c f e
      ∙ ap (next_round z call.context rest) (write_output-all call.produced f s)

  -- Where no call fails and the file takes all that it is given, the loop of `write` throws nothing.
  write_loop-all :
      (fuel : ℕ) (input : Bytes) (c : Context) (f : Stream)
      → ((c : Context) (input : Bytes) (is_end : Bool) → (compress c input is_end).failed ≡ false)
      → budget most_owed input + owed c < suc fuel
      → f.shorts ≡ []
      → (c' : Context) × (f' : Stream) × (write_loop z fuel input c f ≡ some (ok done, c', f'))
        × (f'.shorts ≡ [])
  write_loop-all zero [] c f fine h s = (c, f, unfold write_loop in refl, s)
  write_loop-all (suc fuel) [] c f fine h s = (c, f, unfold write_loop in refl, s)
  write_loop-all zero (b ∷ input) c f fine h s = absurd (unfold budget in omega arith)
  write_loop-all (suc fuel) (b ∷ input) c f fine h s =
      let call = compress c (b ∷ input) false in
      let e = fine c (b ∷ input) false in
      let less = round_shrinks z c b input e in
      let next = put_output call.produced f in
      let (c', f', ends, shorts) =
        write_loop-all fuel (drop call.consumed (b ∷ input)) call.context next fine (omega arith)
          (put_output-all call.produced f s).0 in
      (c', f', write_loop-round fuel b input c f e s ∙ ends, shorts)

  -- Where no call of zstd fails and the file takes all that it is given, a session with fuel for each
  -- piece ends without an exception and leaves a file that expands to what the context had taken
  -- before, then all the pieces in order.
  pub zstd_session-expands :
      (fuel : ℕ) (pieces : List Bytes) (source : Bytes) (c : Context) (f : Stream)
      → ((c : Context) (input : Bytes) (is_end : Bool) → (compress c input is_end).failed ≡ false)
      → most_owed < fuel
      → All (λ piece. budget most_owed piece + most_owed < suc fuel) pieces
      → f.shorts ≡ []
      → Wrote c source f.contents
      → (f' : Stream) × (zstd_session z fuel pieces (record { file = some f; ctx = some c })
          ≡ some (ok done, some f'))
        × (expand f'.contents ≡ some (source ++ concat pieces))
  unfolding zstd_session zstd_write next_piece concat
  zstd_session-expands fuel [] source c f fine most h s w =
      let bound = owed_le c in
      let (f', ends, expands) =
        close_loop-expands z fuel source c f (λ c. fine c [] true) (omega arith) s w in
      let whole = ap some (sym (append-nil source)) in
      (f', unfold zstd_close in rw ends refl, expands ∙ whole)
  zstd_session-expands fuel (piece ∷ pieces) source c f fine most h s w =
      let bound = owed_le c in
      let enough = h.0 in
      let (c', g, goes, shorts) = write_loop-all fuel piece c f fine (omega arith) s in
      let kept = write_loop-Wrote z fuel piece source c c' f g w goes in
      let (f', ends, expands) =
        zstd_session-expands fuel pieces (source ++ piece) c' g fine most h.1 shorts kept in
      let whole = ap some (append_assoc source piece (concat pieces)) in
      (f', rw goes ends, expands ∙ whole)
