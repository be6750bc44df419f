-- ===== src/Cli/Signals.antt =====
-- bin/tracey_mctraceface_main.cpp: the signals that stop perf.
use tracey_mctraceface.Base.{ℕ, not, ◌&&◌, List, [], ◌∷◌, ◌++◌, Bytes, codes, equal, if◌then◌else◌}
use tracey_mctraceface.Capabilities.{PerfCapabilities}
use tracey_mctraceface.Driver.{PerfConfig}
use tracey_mctraceface.Cli.Record.{sigint, sigusr2, sigterm, snapshot_signal}

-- The signals that stop perf.
unfoldable pub stop_signals : PerfConfig → PerfCapabilities → List ℕ
unfolding snapshot_signal
stop_signals config caps =
    (if not config.full_execution && not config.sampling then snapshot_signal caps ∷ [] else [])
    ++ sigterm ∷ []

-- What a command line of perf record has it wait for to make a snapshot.
unfoldable pub asked_by : List Bytes → List ℕ
asked_by [] = []
asked_by (arg ∷ args) =
    if equal arg (codes "--snapshot=e")
    then sigint ∷ []
    else if equal arg (codes "--snapshot")
    then sigusr2 ∷ []
    else asked_by args
