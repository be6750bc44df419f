-- ===== src/Cli/Asks.antt =====
-- bin/tracey_mctraceface_main.cpp: what a step of a command asks about perf record.
use tracey_mctraceface.Base.{ℕ, ◌≡◌, refl, ap, Bool, List, [], ◌∷◌, map}
use tracey_mctraceface.Base.Outcome.{done}
use tracey_mctraceface.Process.{Call}
use tracey_mctraceface.Cli.{Effect, asks, sleeps, catches_interrupt, starts, Run, perform}
use tracey_mctraceface.Cli.Does.{View, shown, Does, Does-perform}

abbrev pub asked_in : Effect → List Call
asked_in (asks call) = call ∷ []
asked_in _ = []

abbrev pub asked : View Call
asked = record { select = asked_in; says_nothing = λ line. refl }

-- `m` returns `a`, and has asked just `calls` about perf record meanwhile.
abbrev pub Asks : {A : Type 0} → Run A → A → List Call → Type 0
Asks m a calls = Does asked m a calls

shown-asks : (calls : List Call) → shown asked (map asks calls) ≡ calls
unfolding shown
shown-asks [] = refl
shown-asks (call ∷ calls) = ap (◌∷◌ call) (shown-asks calls)

pub Asks-calls : (calls : List Call) → Asks (perform (map asks calls)) done calls
Asks-calls calls = Does-perform asked (map asks calls) calls (shown-asks calls)

pub Asks-sleeps : (ms : ℕ) → Asks (perform (sleeps ms ∷ [])) done []
Asks-sleeps ms = Does-perform asked (sleeps ms ∷ []) [] (unfold shown in refl)

pub Asks-starts : (args : List (List ℕ)) → Asks (perform (starts args ∷ [])) done []
Asks-starts args = Does-perform asked (starts args ∷ []) [] (unfold shown in refl)

pub Asks-catches : (on : Bool) → Asks (perform (catches_interrupt on ∷ [])) done []
Asks-catches on = Does-perform asked (catches_interrupt on ∷ []) [] (unfold shown in refl)

pub asks_and_sleeps : (call : Call) → Asks (perform (asks call ∷ sleeps 200 ∷ [])) done (call ∷ [])
asks_and_sleeps call =
    Does-perform asked (asks call ∷ sleeps 200 ∷ []) (call ∷ []) (unfold shown in refl)
