-- ===== src/Driver.antt =====
-- lib/perf_driver.cpp: the command lines of perf, with the helpers of bin/tracey_mctraceface_main.cpp that
-- read their settings. Whether a path is a directory is an argument.
pub mod Lines
use tracey_mctraceface.Base.{
  ℕ, Bool, true, false, not, ◌&&◌, ◌||◌, List, [], ◌∷◌, ◌++◌, Option, none, some, Bytes, codes,
  equal, is_empty, if◌then◌else◌, ltb, ◌==◌,
}
use tracey_mctraceface.Capabilities.{PerfCapabilities}
use tracey_mctraceface.Writer.{decimal}

pub data TraceScope : Type 0 where
  userspace kernel both : TraceScope

pub data TimerResolution : Type 0 where
  low normal high : TimerResolution

pub record PerfConfig : Type 0 where
  pub multi_thread : Bool
  pub full_execution : Bool
  pub sampling : Bool
  pub snapshot_size_pages : ℕ
  pub trace_scope : TraceScope
  pub timer_resolution : TimerResolution
  pub working_directory : Bytes

abbrev pub scope_selector : TraceScope → Bytes
scope_selector userspace = codes "u"
scope_selector kernel = codes "k"
scope_selector both = codes "uk"

abbrev pub timer_config : TimerResolution → Bytes
timer_config low = []
timer_config normal = codes "cyc=1,cyc_thresh=1,mtc_period=0"
timer_config high = codes "cyc=1,cyc_thresh=1,mtc_period=0,noretcomp=1"

abbrev is_userspace : TraceScope → Bool
is_userspace userspace = true
is_userspace _ = false

-- The argument of the event.
unfoldable pub event_args : PerfConfig → List Bytes
event_args config =
    let sel = scope_selector config.trace_scope in
    let tc = timer_config config.timer_resolution in
    if config.sampling
    then (codes "--event=cycles/freq=10000/" ++ sel) ∷ []
    else (codes "--event=intel_pt/"
        ++ ((if not (is_empty tc) then tc ++ codes "/" else codes "/") ++ sel))
      ∷ []

unfoldable pub snapshot_args : PerfConfig → PerfCapabilities → List Bytes
snapshot_args config caps =
    if not config.full_execution && not config.sampling
    then (if caps.snapshot_on_exit then codes "--snapshot=e" ∷ [] else codes "--snapshot" ∷ [])
    else []

unfoldable pub size_args : PerfConfig → List Bytes
size_args config =
    if ltb 0 config.snapshot_size_pages && not config.sampling
    then (codes "-m," ++ decimal config.snapshot_size_pages) ∷ []
    else []

unfoldable pub kcore_args : PerfConfig → PerfCapabilities → List Bytes
kcore_args config caps =
    if not (is_userspace config.trace_scope) && caps.kcore && not config.sampling
    then codes "--kcore" ∷ []
    else []

unfoldable pub build_common_record_args : PerfConfig → PerfCapabilities → List Bytes
build_common_record_args config caps =
    codes "perf"
    ∷ codes "record"
    ∷ codes "-o"
    ∷ (config.working_directory ++ codes "/perf.data")
    ∷ codes "--timestamp"
    ∷ (event_args config
        ++ (snapshot_args config caps ++ (size_args config ++ kcore_args config caps)))

-- The loop that lists the process numbers.
unfoldable pub pid_list : List Bytes → Bytes
pid_list [] = []
pid_list (pid ∷ []) = pid
pid_list (pid ∷ next ∷ pids) = pid ++ (codes "," ++ pid_list (next ∷ pids))

abbrev pub pid_args : PerfConfig → List Bytes → List Bytes
pid_args config [] = []
pid_args config (pid ∷ pids) =
    (if config.multi_thread then codes "-p" ∷ [] else codes "--per-thread" ∷ codes "-t" ∷ [])
    ++ pid_list (pid ∷ pids) ∷ []

-- `build_perf_record_args` with process numbers.
unfoldable pub build_attach_args : PerfConfig → PerfCapabilities → List Bytes → List Bytes
build_attach_args config caps pids = build_common_record_args config caps ++ pid_args config pids

-- `build_perf_record_args` with a program.
unfoldable pub build_launch_args : PerfConfig → PerfCapabilities → Bytes → List Bytes → List Bytes
build_launch_args config caps program program_args =
    build_common_record_args config caps ++ codes "--" ∷ program ∷ program_args

unfoldable pub build_perf_script_args : PerfConfig → Bytes → (is_directory : Bool) → List Bytes
build_perf_script_args config working_directory is_directory =
    codes "perf"
    ∷ codes "script"
    ∷ codes "-i"
    ∷ (if is_directory then working_directory ++ codes "/perf.data" else working_directory)
    ∷ codes "--ns"
    ∷ (if not config.sampling
        then codes "--itrace=bep"
          ∷ codes "-F"
          ∷ codes "pid,tid,time,flags,ip,addr,sym,symoff,synth,dso,event,period"
          ∷ []
        else codes "-F" ∷ codes "pid,tid,time,ip,sym,symoff,dso,event,period" ∷ [])

-- The loop of `parse_pids`, with `current`.
unfoldable pub split_pids : Bytes → Bytes → List Bytes
split_pids current [] = if not (is_empty current) then current ∷ [] else []
split_pids current (c ∷ cs) =
    let cut = split_pids [] cs in
    let more = split_pids (current ++ c ∷ []) cs in
    if c == b',' then (if not (is_empty current) then current ∷ cut else cut) else more

unfoldable pub parse_pids : Bytes → List Bytes
parse_pids = split_pids []

unfoldable pub parse_trace_scope : Bytes → TraceScope
parse_trace_scope s =
    if equal s (codes "kernel") then kernel else if equal s (codes "both") then both else userspace

unfoldable pub parse_timer_resolution : Bytes → TimerResolution
parse_timer_resolution s =
    if equal s (codes "low") then low else if equal s (codes "high") then high else normal

-- The fallback of `run_run` and `run_attach` where there is no Intel PT.
unfoldable pub fall_back : PerfCapabilities → PerfConfig → PerfConfig
fall_back caps config =
    if not config.sampling && not caps.has_intel_pt
    then record config { sampling = true }
    else config

-- The override of the output path for `--no-decode`: the argument behind the first "-o" that has one.
unfoldable pub override_output : Bytes → List Bytes → List Bytes
override_output path [] = []
override_output path (arg ∷ []) = arg ∷ []
override_output path (arg ∷ next ∷ args) =
    let rest = override_output path (next ∷ args) in
    if equal arg (codes "-o") then arg ∷ path ∷ args else arg ∷ rest
