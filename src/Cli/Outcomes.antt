-- ===== src/Cli/Outcomes.antt =====
-- bin/tracey_mctraceface_main.cpp: how a run can end.
use tracey_mctraceface.Base.{
  ℕ, ◌≡◌, refl, sym, subst, ◌⊎◌, inl, inr, Bool, true, false, List, [], ◌∷◌, ◌++◌, Bytes, codes,
  if◌then◌else◌,
}
use tracey_mctraceface.Base.Outcome.{Result, ok, throws, continue, ok-throws, pure, ◌>>=◌, ◌>>◌}
use tracey_mctraceface.Filter.{Config}
use tracey_mctraceface.Cli.{say, perform, Effect, says, World, new_world, Run, Json, System}
use tracey_mctraceface.Cli.Record.{Paths}
use tracey_mctraceface.Cli.Decode.{decode_perf_data}
use tracey_mctraceface.Cli.Commands.{
  decode_or_save, run_run, attach_to, attach_any, run_attach, run_decode, dispatch, run, caught,
}

-- The last effect of the run is a line that begins with "error: ".
abbrev pub SaysError : World → Type 0
SaysError w =
    (before : List Effect) × (reason : Bytes) × (w.effects
      ≡ before ++ says (codes "error: " ++ reason) ∷ [])

-- What has returned has returned 0, or 1 behind an error line.
abbrev pub IsAnnounced : Result ℕ × World → Type 0
IsAnnounced (throws e, w) = Unit
IsAnnounced (ok code, w) = (code ≡ 0) ⊎ ((code ≡ 1) × SaysError w)

record Announces (m : Run ℕ) : Type 0 where
  at : (w : World) → IsAnnounced (m w)

Announces-zero : Announces (pure 0)
unfolding pure
Announces-zero = record { at = λ w. inl refl }

Announces-error : (reason : Bytes) → Announces (say (codes "error: " ++ reason) >> pure 1)
unfolding ◌>>=◌ say perform pure
Announces-error reason = record { at = λ w. inr (refl, (w.effects, reason, refl)) }

Announces-if : (b : Bool) (m n : Run ℕ) → Announces m → Announces n → Announces (if b then m else n)
Announces-if true m n km kn = km
Announces-if false m n km kn = kn

Announces-bind :
    {A : Type 0} (m : Run A) (f : A → Run ℕ) → ((a : A) → Announces (f a)) → Announces (m >>= f)
unfolding ◌>>=◌
Announces-bind {A} m f kf = record { at = λ w. after (m w) }
  where
    after : (p : Result A × World) → IsAnnounced (continue f p)
    after (ok a, w) = (kf a).at w
    after (throws e, w) = tt

ruleset announced_rules = (Announces-zero, Announces-error, Announces-if, Announces-bind)

-- What returns nothing but 0.
record ReturnsZero (m : Run ℕ) : Type 0 where
  at : (w : World) (code : ℕ) → (m w).0 ≡ ok code → code ≡ 0

ReturnsZero-zero : ReturnsZero (pure 0)
unfolding pure
ReturnsZero-zero = record { at = λ w code h. cc }

ReturnsZero-bind :
    {A : Type 0} (m : Run A) (f : A → Run ℕ) → ((a : A) → ReturnsZero (f a)) → ReturnsZero (m >>= f)
unfolding ◌>>=◌
ReturnsZero-bind {A} m f kf = record { at = λ w. after (m w) }
  where
    after : (p : Result A × World) (code : ℕ) → (continue f p).0 ≡ ok code → code ≡ 0
    after (ok a, w) code h = (kf a).at w code h
    after (throws e, w) code h = absurd (ok-throws (sym h))

ruleset zero_rules = (ReturnsZero-zero, ReturnsZero-bind)

Announces-after :
    (m : Run ℕ) (f : ℕ → Run ℕ) → ReturnsZero m → Announces (f 0) → Announces (m >>= f)
unfolding ◌>>=◌
Announces-after m f zero_only kf = record { at = λ w. after (m w) (zero_only.at w) }
  where
    after :
        (p : Result ℕ × World)
        → ((code : ℕ) → p.0 ≡ ok code → code ≡ 0)
        → IsAnnounced (continue f p)
    after (ok code, w) h = subst (λ c. IsAnnounced (f c w)) (sym (h code refl)) (kf.at w)
    after (throws e, w) h = tt

decode-ReturnsZero :
    (sys : System) (working_dir output : Bytes) (sampling : Bool) (config : Config)
    → ReturnsZero (decode_perf_data sys working_dir output sampling config)
unfolding decode_perf_data
decode-ReturnsZero sys working_dir output sampling config = search zero_rules depth 20

module _ (j : Json) (sys : System) where
  open j use {Value}

  decode_or_save-Announces :
      (sub : Value) (no_decode sampling : Bool) (paths : Paths) (output : Bytes)
      → Announces (decode_or_save j sys sub no_decode sampling paths output)
  unfolding decode_or_save
  decode_or_save-Announces sub no_decode sampling paths output =
      search (announced_rules, Announces-after, decode-ReturnsZero) depth 20

  run_run-Announces : (config : Value) → Announces (run_run j sys config)
  unfolding run_run
  run_run-Announces config = search (announced_rules, decode_or_save-Announces) depth 30

  attach_any-Announces :
      (sub : Value) (pid_str output : Bytes) (pids : List Bytes)
      → Announces (attach_any j sys sub pid_str output pids)
  unfolding attach_to
  attach_any-Announces sub pid_str output [] = Announces-error (codes "no PIDs specified")
  attach_any-Announces sub pid_str output (pid ∷ pids) =
      search (announced_rules, decode_or_save-Announces) depth 30

  run_attach-Announces : (config : Value) → Announces (run_attach j sys config)
  unfolding run_attach
  run_attach-Announces config = search (announced_rules, attach_any-Announces) depth 20

  run_decode-ReturnsZero : (config : Value) → Announces (run_decode j sys config)
  unfolding run_decode
  run_decode-ReturnsZero config =
      search (announced_rules, Announces-after, decode-ReturnsZero) depth 30

  dispatch-Announces : (config : Value) → Announces (dispatch j sys config)
  unfolding dispatch
  dispatch-Announces config =
      search (announced_rules, run_run-Announces, run_attach-Announces, run_decode-ReturnsZero)
        depth 20

  caught-error :
      (p : Result ℕ × World)
      → IsAnnounced p
      → let (code, w) = caught j sys p in (code ≡ 0) ⊎ ((code ≡ 1) × SaysError w)
  caught-error (ok code, w) h = h
  caught-error (throws e, w) h = inr (refl, (w.effects, e, refl))

  -- Whatever the settings are and whatever the system answers, a run of the program ends without an
  -- exception, and its exit code is 0, or 1 with an error line as the last thing that it does.
  pub run_ends :
      (config : Value) → let (code, w) = run j sys config in (code ≡ 0) ⊎ ((code ≡ 1) × SaysError w)
  unfolding run
  run_ends config = caught-error _ ((dispatch-Announces config).at new_world)
