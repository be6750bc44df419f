-- ===== src/Capabilities.antt =====
-- lib/perf_capabilities.cpp: the kernel's version and what perf can do by it. What the system says, the
-- device directory, the user and the first line of /proc/version, is the argument.
pub mod Versions
use tracey_mctraceface.Base.{
  ℕ, zero, suc, ◌+◌, ◌^◌, Bool, true, false, ◌&&◌, ◌||◌, List, [], ◌∷◌, Option, none, some, Bytes,
  codes, starts_with, if◌then◌else◌, leb, ltb, ◌==◌, drop,
}
use tracey_mctraceface.Base.Int.{ℤ, pos, negsuc}
use tracey_mctraceface.Parser.Scan.{
  find_text, drop_while, is_digit, decimal_digit, from_chars, map_option,
}

pub record KernelVersion : Type 0 where
  pub major : ℤ
  pub minor : ℤ

pub record PerfCapabilities : Type 0 where
  pub has_intel_pt : Bool
  pub has_kernel_tracing : Bool
  pub kernel_version : KernelVersion
  pub snapshot_on_exit : Bool
  pub ctlfd : Bool
  pub dlfilter : Bool
  pub kcore : Bool

abbrev negate : ℕ → ℤ
negate zero = pos 0
negate (suc n) = negsuc n

-- `std::from_chars` for an `int`: the value, and the text from the returned pointer on.
unfoldable pub int_from_chars : Bytes → Option (ℤ × Bytes)
int_from_chars [] = none
int_from_chars (c ∷ cs) =
    if c == b'-'
    then map_option (λ n. (negate n, drop_while is_digit cs))
        (from_chars decimal_digit 10 (2 ^ 31 + 1) cs)
    else map_option (λ n. (pos n, drop_while is_digit (c ∷ cs)))
        (from_chars decimal_digit 10 (2 ^ 31) (c ∷ cs))

abbrev pub no_version : KernelVersion
no_version = record { major = pos 0; minor = pos 0 }

-- From behind "Linux version ".
unfoldable pub parse_version_numbers : Bytes → KernelVersion
parse_version_numbers s = elim (int_from_chars s) [
  | none ↦ no_version
  | some (major, p₁) ↦
      if starts_with p₁ (codes ".")
      then (elim (int_from_chars (drop 1 p₁)) [
        | none ↦ record { major = major; minor = pos 0 }
        | some (minor, p₂) ↦ record { major = major; minor = minor }
      ])
      else record { major = major; minor = pos 0 }
]

unfoldable pub parse_kernel_version : Bytes → KernelVersion
parse_kernel_version version_str = elim (find_text (codes "Linux version ") version_str) [
  | none ↦ no_version
  | some at ↦ parse_version_numbers (drop (at + 14) version_str)
]

abbrev pub gt_int : ℤ → ℕ → Bool
gt_int (pos m) n = ltb n m
gt_int (negsuc m) n = false

abbrev pub ge_int : ℤ → ℕ → Bool
ge_int (pos m) n = leb n m
ge_int (negsuc m) n = false

abbrev pub eq_int : ℤ → ℕ → Bool
eq_int (pos m) n = m == n
eq_int (negsuc m) n = false

unfoldable pub at_least : KernelVersion → ℕ → ℕ → Bool
at_least kv major minor = gt_int kv.major major || (eq_int kv.major major && ge_int kv.minor minor)

-- The capabilities by the version, where there is one.
unfoldable pub version_capabilities : Bool → Bool → KernelVersion → PerfCapabilities
version_capabilities has_intel_pt is_root kv = record {
  has_intel_pt = has_intel_pt;
  has_kernel_tracing = is_root;
  kernel_version = kv;
  snapshot_on_exit = at_least kv 5 4;
  ctlfd = at_least kv 5 10;
  dlfilter = at_least kv 5 14;
  kcore = at_least kv 5 5;
}

unfoldable pub detect_capabilities : Bool → Bool → Option Bytes → PerfCapabilities
detect_capabilities has_intel_pt is_root none = record {
  has_intel_pt = has_intel_pt;
  has_kernel_tracing = is_root;
  kernel_version = no_version;
  snapshot_on_exit = false;
  ctlfd = false;
  dlfilter = false;
  kcore = false;
}
detect_capabilities has_intel_pt is_root (some version_str) =
    version_capabilities has_intel_pt is_root (parse_kernel_version version_str)
