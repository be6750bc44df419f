-- ===== src/Sink/Session.antt =====
-- lib/compressed_sink.cpp: that the loops of `ZstdSink` end, and what a session leaves in the file.
use tracey_mctraceface.Base.{
  ℕ, zero, suc, ◌+◌, ◌<◌, ◌≤◌, ◌≡◌, refl, sym, ap, ◌∙◌, subst, inl, inr, true, false, [], ◌∷◌, ◌++◌,
  append-nil, append_assoc, take-append-drop, none, some, Bytes, length, take, drop, ltb, ltb→lt,
  ==_iff, Bool-cases, arith,
}
use tracey_mctraceface.Base.Outcome.{Result, ok, throws, Void, done, ok-throws}
use tracey_mctraceface.Sink.{Stream, fwrite}
use tracey_mctraceface.Sink.Contract.{fwrite-contents, Result-cases}
use tracey_mctraceface.Sink.Zstd.{
  Zstd, write_output, put_output, write_failed, Written, next_round, write_loop, close_loop,
}

-- The rounds that an input may take: for each byte its own, and those that put out what is owed.
unfoldable pub budget : ℕ → Bytes → ℕ
budget most [] = 0
budget most (b ∷ input) = suc (most + budget most input)

budget-drop : (most n : ℕ) (input : Bytes) → budget most (drop n input) ≤ budget most input
unfolding budget
budget-drop most zero input = omega arith
budget-drop most (suc n) [] = omega arith
budget-drop most (suc n) (b ∷ input) = omega (arith, budget-drop most n input)

budget-drop_some :
    (most n b : ℕ) (input : Bytes)
    → 0 < n
    → budget most (drop n (b ∷ input)) + suc most ≤ budget most (b ∷ input)
unfolding budget
budget-drop_some most zero b input h = omega arith
budget-drop_some most (suc n) b input h = omega (arith, budget-drop most n input)

write_output-contents :
    (produced : Bytes) (f f' : Stream)
    → write_output produced f ≡ (ok done, f')
    → f'.contents ≡ f.contents ++ produced
unfolding write_output
write_output-contents [] f f' h = sym (ap (λ p. (p.1).contents) h) ∙ sym (append-nil f.contents)
write_output-contents (b ∷ produced) f f' h =
    let (g, written) = fwrite (b ∷ produced) f in
    let all : written ≡ length (b ∷ produced) =
      (==_iff written (length (b ∷ produced))).0 (Result-cases _ write_failed (ap (λ p. p.0) h)) in
    sym (ap (λ p. (p.1).contents) h)
    ∙ (unfold fwrite in fwrite-contents (b ∷ produced) f.contents f.shorts all)

pub put_output-all :
    (produced : Bytes) (f : Stream)
    → f.shorts ≡ []
    → ((put_output produced f).shorts ≡ [])
      × ((put_output produced f).contents ≡ f.contents ++ produced)
unfolding put_output fwrite
put_output-all [] f h = (h, sym (append-nil f.contents))
put_output-all (b ∷ produced) f h = rw h (refl, refl)

ltb-zero : (n : ℕ) → ltb 0 n ≡ false → n ≡ 0
ltb-zero n h = ground arith

module _ (z : Zstd) where
  open z use {
    Context, compress, error_name, expand, owed, most_owed, Wrote, owed_le, progress, end_progress,
    compress_wrote, end_expands,
  }

  -- Each round of the loop of `write` that does not throw leaves less to do.
  pub round_shrinks :
      (c : Context) (b : ℕ) (input : Bytes)
      → (compress c (b ∷ input) false).failed ≡ false
      → budget most_owed (drop (compress c (b ∷ input) false).consumed (b ∷ input))
          + owed (compress c (b ∷ input) false).context
        < budget most_owed (b ∷ input) + owed c
  round_shrinks c b input h =
      let call = compress c (b ∷ input) false in
      let bound = owed_le call.context in
      elim (progress c b input h) [
        | inl some_taken ↦
            omega (arith, bound, budget-drop_some most_owed call.consumed b input some_taken)
        | inr less ↦ omega (arith, less, budget-drop most_owed call.consumed (b ∷ input))
      ]

  next_round-total :
      (c : Context) (rest : Stream → Written z)
      → ((f : Stream) → (w : Result Void × Context × Stream) × (rest f ≡ some w))
      → (p : Result Void × Stream)
      → (w : Result Void × Context × Stream) × (next_round z c rest p ≡ some w)
  unfolding next_round
  next_round-total c rest total (ok v, f) = total f
  next_round-total c rest total (throws e, f) = ((throws e, c, f), refl)

  -- With fuel for its budget and for what the context owes the loop of `write` ends, whatever the file
  -- takes and whether or not a call fails.
  pub write_loop-total :
      (fuel : ℕ) (input : Bytes) (c : Context) (f : Stream)
      → budget most_owed input + owed c < suc fuel
      → (w : Result Void × Context × Stream) × (write_loop z fuel input c f ≡ some w)
  unfolding write_loop
  write_loop-total zero [] c f h = ((ok done, c, f), refl)
  write_loop-total (suc fuel) [] c f h = ((ok done, c, f), refl)
  write_loop-total zero (b ∷ input) c f h = absurd (unfold budget in omega arith)
  write_loop-total (suc fuel) (b ∷ input) c f h =
      let call = compress c (b ∷ input) false in
      elim (Bool-cases call.failed) [
        | inl e ↦ rw e (_, refl)
        | inr e ↦
            let less = round_shrinks c b input e in
            let total = λ (g : Stream).
              write_loop-total fuel (drop call.consumed (b ∷ input)) call.context g (omega arith) in
            rw e (next_round-total call.context _ total (write_output call.produced f))
      ]

  abbrev result : Written z → Result Void
  result none = throws []
  result (some (r, c, f)) = r

  next_round-done :
      (c c' : Context) (rest : Stream → Written z) (p : Result Void × Stream) (f' : Stream)
      → next_round z c rest p ≡ some (ok done, c', f')
      → (g : Stream) × (p ≡ (ok done, g)) × (rest g ≡ some (ok done, c', f'))
  unfolding next_round
  next_round-done c c' rest (ok done, g) f' h = (g, refl, h)
  next_round-done c c' rest (throws e, g) f' h = absurd (ground arith)

  same_end :
      (source : Bytes) (c c' : Context) (f f' : Stream)
      → Wrote c source f.contents
      → ◌≡◌ {A = Written z} (some (ok done, c, f)) (some (ok done, c', f'))
      → Wrote c' (source ++ []) f'.contents
  same_end source c c' f f' h e =
      let context : c ≡ c' = cc in
      let file : f ≡ f' = cc in
      rw (append-nil source) (
        subst (λ x. Wrote x source f'.contents) context
          (subst (λ g. Wrote c source (Stream.contents g)) file h))

  write_loop-failed :
      (fuel b : ℕ) (input : Bytes) (c c' : Context) (f f' : Stream)
      → (compress c (b ∷ input) false).failed ≡ true
      → ¬ (write_loop z (suc fuel) (b ∷ input) c f ≡ some (ok done, c', f'))
  unfolding write_loop
  write_loop-failed fuel b input c c' f f' h e =
      let stopped = rw h at e in ok-throws (sym (ap result stopped))

  pub write_loop-fine :
      (fuel b : ℕ) (input : Bytes) (c : Context) (f : Stream)
      → (compress c (b ∷ input) false).failed ≡ false
      → let call = compress c (b ∷ input) false in
        write_loop z (suc fuel) (b ∷ input) c f
        ≡ next_round z call.context
            (write_loop z fuel (drop call.consumed (b ∷ input)) call.context)
            (write_output call.produced f)
  unfolding write_loop
  write_loop-fine fuel b input c f h = rw h refl

  -- What one round has the context take and the file hold.
  round_wrote :
      (c : Context) (b : ℕ) (input source : Bytes) (f g : Stream)
      → (compress c (b ∷ input) false).failed ≡ false
      → Wrote c source f.contents
      → write_output (compress c (b ∷ input) false).produced f ≡ (ok done, g)
      → let call = compress c (b ∷ input) false in
        Wrote call.context (source ++ take call.consumed (b ∷ input)) g.contents
  round_wrote c b input source f g fine h wrote =
      let call = compress c (b ∷ input) false in
      rw (write_output-contents call.produced f g wrote)
        (compress_wrote c (b ∷ input) source f.contents false fine h)

  -- When the loop of `write` ends without an exception, the context has taken the whole input, and all
  -- that it has put out is in the file.
  pub write_loop-Wrote :
      (fuel : ℕ) (input source : Bytes) (c c' : Context) (f f' : Stream)
      → Wrote c source f.contents
      → write_loop z fuel input c f ≡ some (ok done, c', f')
      → Wrote c' (source ++ input) f'.contents
  unfolding write_loop
  write_loop-Wrote zero [] source c c' f f' h e = same_end source c c' f f' h e
  write_loop-Wrote (suc fuel) [] source c c' f f' h e = same_end source c c' f f' h e
  write_loop-Wrote zero (b ∷ input) source c c' f f' h e = absurd (ground arith)
  write_loop-Wrote (suc fuel) (b ∷ input) source c c' f f' h e =
      let call = compress c (b ∷ input) false in
      elim (Bool-cases call.failed) [
        | inl failed ↦ absurd (write_loop-failed fuel b input c c' f f' failed e)
        | inr fine ↦
            let left = drop call.consumed (b ∷ input) in
            let taken = take call.consumed (b ∷ input) in
            let goes = sym (write_loop-fine fuel b input c f fine) ∙ e in
            let (g, wrote, rest) = next_round-done call.context c' _ _ f' goes in
            let first = round_wrote c b input source f g fine h wrote in
            let last =
              write_loop-Wrote fuel left (source ++ taken) call.context c' g f' first rest in
            subst (λ x. Wrote c' x f'.contents)
              (append_assoc source taken left
                ∙ ap (◌++◌ source) (take-append-drop call.consumed (b ∷ input)))
              last
      ]

  nothing_taken :
      {c : Context} {source frame frame' : Bytes} (n : ℕ)
      → frame' ≡ frame
      → Wrote c (source ++ take n []) frame
      → Wrote c source frame'
  nothing_taken {c} {source} {frame} zero e w = rw (e, ← append-nil source) w
  nothing_taken {c} {source} {frame} (suc n) e w = rw (e, ← append-nil source) w

  -- With fuel for what the context owes the loop of `close` ends; where no call fails and the file takes
  -- all that it is given, the file then expands to the whole source.
  pub close_loop-expands :
      (fuel : ℕ) (source : Bytes) (c : Context) (f : Stream)
      → ((c : Context) → (compress c [] true).failed ≡ false)
      → owed c < fuel
      → f.shorts ≡ []
      → Wrote c source f.contents
      → (f' : Stream) × (close_loop z fuel c f ≡ some f') × (expand f'.contents ≡ some source)
  unfolding close_loop
  close_loop-expands zero source c f fine h s w = absurd (omega arith)
  close_loop-expands (suc fuel) source c f fine h s w =
      let call = compress c [] true in
      let (shorts, contents) = put_output-all call.produced f s in
      elim (Bool-cases (ltb 0 call.returned)) [
        | inl more ↦
            let less = end_progress c (fine c) (ltb→lt 0 call.returned more) in
            let kept = compress_wrote c [] source f.contents true (fine c) w in
            let left =
              close_loop-expands fuel source call.context (put_output call.produced f) fine
                (omega arith) shorts (nothing_taken call.consumed contents kept) in
            rw (fine c, more) left
        | inr last ↦
            let ended = end_expands c source f.contents (fine c) (ltb-zero call.returned last) w in
            rw (fine c, last) (put_output call.produced f, refl, rw contents ended)
      ]
