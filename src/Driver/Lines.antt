-- ===== src/Driver/Lines.antt =====
-- The process numbers on the command lines, and the command line of a sampling session.
use tracey_mctraceface.Base.{
  ℕ, ◌≡◌, refl, sym, ap, ◌∙◌, Bool, true, false, not, ◌&&◌, List, [], ◌∷◌, ◌++◌, append_assoc,
  append-nil, All, Bytes, codes, is_empty, ltb, ◌==◌, Bool-cases, inl, inr,
}
use tracey_mctraceface.Capabilities.{PerfCapabilities}
use tracey_mctraceface.Driver.{
  PerfConfig, scope_selector, is_userspace, event_args, snapshot_args, size_args, kcore_args,
  build_common_record_args, pid_list, split_pids, parse_pids,
}

-- A text with no comma.
abbrev pub NoComma : Bytes → Type 0
NoComma = All (λ c. (c == b',') ≡ false)

abbrev pub IsPid : Bytes → Type 0
IsPid pid = NoComma pid × (is_empty pid ≡ false)

append-filled : (xs : Bytes) (c : ℕ) → is_empty (xs ++ c ∷ []) ≡ false
append-filled [] c = refl
append-filled (x ∷ xs) c = refl

NoComma-append : (xs : Bytes) (c : ℕ) → NoComma xs → (c == b',') ≡ false → NoComma (xs ++ c ∷ [])
NoComma-append [] c h e = (e, tt)
NoComma-append (x ∷ xs) c h e = (h.0, NoComma-append xs c h.1 e)

split_pids-IsPid : (current s : Bytes) → NoComma current → All IsPid (split_pids current s)
unfolding split_pids
split_pids-IsPid current [] h = elim (Bool-cases (is_empty current)) [
  | inl none_left ↦ rw none_left tt
  | inr filled ↦ rw filled ((h, filled), tt)
]
split_pids-IsPid current (c ∷ cs) h = elim (Bool-cases (c == b',')) [
  | inl comma ↦ elim (Bool-cases (is_empty current)) [
    | inl none_left ↦ rw (comma, none_left) (split_pids-IsPid [] cs tt)
    | inr filled ↦ rw (comma, filled) ((h, filled), split_pids-IsPid [] cs tt)
  ]
  | inr other ↦
      rw other (split_pids-IsPid (current ++ c ∷ []) cs (NoComma-append current c h other))
]

split_pids-end :
    (current s : Bytes)
    → NoComma s
    → is_empty (current ++ s) ≡ false
    → split_pids current s ≡ (current ++ s) ∷ []
unfolding split_pids
split_pids-end current [] h e =
    let filled : is_empty current ≡ false = ap is_empty (sym (append-nil current)) ∙ e in
    rw filled (ap (λ x. x ∷ []) (sym (append-nil current)))
split_pids-end current (c ∷ s) h e = rw (h.0) (
    split_pids-end (current ++ c ∷ []) s h.1 (ap is_empty (append_assoc current (c ∷ []) s) ∙ e)
    ∙ ap (λ x. x ∷ []) (append_assoc current (c ∷ []) s))

split_pids-comma :
    (current s rest : Bytes)
    → NoComma s
    → is_empty (current ++ s) ≡ false
    → split_pids current (s ++ (codes "," ++ rest)) ≡ (current ++ s) ∷ split_pids [] rest
unfolding split_pids
split_pids-comma current [] rest h e =
    let filled : is_empty current ≡ false = ap is_empty (sym (append-nil current)) ∙ e in
    rw filled (ap (λ x. x ∷ split_pids [] rest) (sym (append-nil current)))
split_pids-comma current (c ∷ s) rest h e = rw (h.0) (
    split_pids-comma (current ++ c ∷ []) s rest h.1
      (ap is_empty (append_assoc current (c ∷ []) s) ∙ e)
    ∙ ap (λ x. x ∷ split_pids [] rest) (append_assoc current (c ∷ []) s))

-- Whatever is given for the process numbers, no part that is found is empty or holds a comma.
pub parse_pids-IsPid : (s : Bytes) → All IsPid (parse_pids s)
unfolding parse_pids
parse_pids-IsPid s = split_pids-IsPid [] s tt

-- The list of process numbers that is given to perf is parsed back to the numbers, where none is empty
-- or holds a comma.
pub parse_pids-pid_list : (pids : List Bytes) → All IsPid pids → parse_pids (pid_list pids) ≡ pids
unfolding parse_pids pid_list
parse_pids-pid_list [] h = unfold split_pids in refl
parse_pids-pid_list (pid ∷ []) h = split_pids-end [] pid h.0.0 h.0.1
parse_pids-pid_list (pid ∷ next ∷ pids) h =
    split_pids-comma [] pid (pid_list (next ∷ pids)) h.0.0 h.0.1
    ∙ ap (◌∷◌ pid) (parse_pids-pid_list (next ∷ pids) h.1)

and_false : (b : Bool) → (b && false) ≡ false
and_false true = refl
and_false false = refl

snapshot_args-sampling :
    (config : PerfConfig) (caps : PerfCapabilities)
    → config.sampling ≡ true
    → snapshot_args config caps ≡ []
unfolding snapshot_args
snapshot_args-sampling config caps h = rw (h, and_false (not config.full_execution)) refl

size_args-sampling : (config : PerfConfig) → config.sampling ≡ true → size_args config ≡ []
unfolding size_args
size_args-sampling config h = rw (h, and_false (ltb 0 config.snapshot_size_pages)) refl

kcore_args-sampling :
    (config : PerfConfig) (caps : PerfCapabilities)
    → config.sampling ≡ true
    → kcore_args config caps ≡ []
unfolding kcore_args
kcore_args-sampling config caps h = elim (Bool-cases (is_userspace config.trace_scope)) [
  | inl user ↦ rw user refl
  | inr other ↦ rw (other, h, and_false caps.kcore) refl
]

event_args-sampling :
    (config : PerfConfig)
    → config.sampling ≡ true
    → event_args config
      ≡ (codes "--event=cycles/freq=10000/" ++ scope_selector config.trace_scope) ∷ []
unfolding event_args
event_args-sampling config h = rw h refl

-- A sampling session asks for nothing that needs Intel PT, whatever perf can do and whatever is set for
-- the snapshots and the timer.
pub build_common_record_args-sampling :
    (config : PerfConfig) (caps : PerfCapabilities)
    → config.sampling ≡ true
    → build_common_record_args config caps
      ≡ codes "perf"
        ∷ codes "record"
        ∷ codes "-o"
        ∷ (config.working_directory ++ codes "/perf.data")
        ∷ codes "--timestamp"
        ∷ (codes "--event=cycles/freq=10000/" ++ scope_selector config.trace_scope)
        ∷ []
unfolding build_common_record_args
build_common_record_args-sampling config caps h =
    rw
      (
        event_args-sampling config h,
        snapshot_args-sampling config caps h,
        size_args-sampling config h,
        kcore_args-sampling config caps h,
      )
      refl
