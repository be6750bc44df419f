-- ===== src/Capabilities/Versions.antt =====
-- The kernel's version, and the order of the capabilities that it brings.
use tracey_mctraceface.Base.{
  ℕ, ◌^◌, ◌<◌, ◌≤◌, ◌≡◌, refl, ap, ◌∙◌, Bool, true, false, not, ◌&&◌, ◌||◌, [], ◌∷◌, ◌++◌, Option,
  none, some, Bytes, codes, is_empty, starts_with, ◌==◌, arith,
}
use tracey_mctraceface.Base.Int.{ℤ, pos, negsuc}
use tracey_mctraceface.Capabilities.{
  gt_int, ge_int, eq_int, KernelVersion, int_from_chars, parse_version_numbers,
  parse_kernel_version, at_least, version_capabilities, detect_capabilities,
}
use tracey_mctraceface.Parser.Scan.{find_text, is_digit}
use tracey_mctraceface.Parser.Numbers.{Digits, read, stops, drop_while-append}
use tracey_mctraceface.Parser.Digits.{
  decimal-Digits, decimal-filled, read-decimal, from_chars-append,
}
use tracey_mctraceface.Writer.{decimal}

-- `b` where `a`.
abbrev pub implies : Bool → Bool → Bool
implies a b = not a || b

ge_int-le : (v : ℤ) (m n : ℕ) → m ≤ n → ge_int v n ≡ true → ge_int v m ≡ true
ge_int-le (pos a) m n h e = ground (arith, h, e)
ge_int-le (negsuc a) m n h e = e

at_least-minor :
    (kv : KernelVersion) (major m n : ℕ)
    → m ≤ n
    → implies (at_least kv major n) (at_least kv major m) ≡ true
unfolding at_least
at_least-minor kv major m n h =
    go (gt_int kv.major major) (eq_int kv.major major) (ge_int kv.minor n) (ge_int kv.minor m)
      (ge_int-le kv.minor m n h)
  where
    go : (a b c d : Bool) → (c ≡ true → d ≡ true) → implies (a || b && c) (a || b && d) ≡ true
    go true b c d f = refl
    go false false c d f = refl
    go false true false d f = refl
    go false true true d f = f refl

implies_refl : (b : Bool) → implies b b ≡ true
implies_refl true = refl
implies_refl false = refl

-- Whatever the system says, a kernel that can run the filter libraries can take control commands, one
-- that can do that can copy the kernel's image, and one that can do that can make a snapshot at exit.
pub detect_capabilities-ordered :
    (has_intel_pt is_root : Bool) (version_str : Option Bytes)
    → let caps = detect_capabilities has_intel_pt is_root version_str in
      (implies caps.dlfilter caps.ctlfd ≡ true)
      × (implies caps.ctlfd caps.kcore ≡ true)
      × (implies caps.kcore caps.snapshot_on_exit ≡ true)
unfolding detect_capabilities version_capabilities
detect_capabilities-ordered has_intel_pt is_root none = (refl, refl, refl)
detect_capabilities-ordered has_intel_pt is_root (some version_str) =
    let kv = parse_kernel_version version_str in
    (
      at_least-minor kv 5 10 14 (omega arith),
      at_least-minor kv 5 5 10 (omega arith),
      at_least-minor kv 5 4 5 (omega arith),
    )

digit-not_minus : (c : ℕ) → is_digit c ≡ true → (c == b'-') ≡ false
digit-not_minus c h = ground (arith, h)

int_from_chars-Digits :
    (xs s : Bytes)
    → Digits xs
    → is_empty xs ≡ false
    → stops is_digit s ≡ true
    → read 0 xs < 2 ^ 31
    → int_from_chars (xs ++ s) ≡ some (pos (read 0 xs), s)
unfolding int_from_chars
int_from_chars-Digits [] s h e t r = ground arith
int_from_chars-Digits (c ∷ cs) s h e t r =
    rw (digit-not_minus c h.0, from_chars-append (2 ^ 31) (c ∷ cs) s h e t r)
      (ap (λ l. some (pos (read 0 (c ∷ cs)), l)) (drop_while-append is_digit (c ∷ cs) s h t))

int_from_chars-decimal :
    (n : ℕ) (s : Bytes)
    → n < 2 ^ 31
    → stops is_digit s ≡ true
    → int_from_chars (decimal n ++ s) ≡ some (pos n, s)
int_from_chars-decimal n s h e =
    let v = read-decimal n (omega (arith, h)) in
    int_from_chars-Digits (decimal n) s (decimal-Digits n) (decimal-filled n) e
      (omega (arith, v, h))
    ∙ ap (λ m. some (pos m, s)) v

parse_kernel_version-prefix :
    (s : Bytes) → parse_kernel_version (codes "Linux version " ++ s) ≡ parse_version_numbers s
unfolding parse_kernel_version find_text starts_with
parse_kernel_version-prefix s = refl

-- The version line of a kernel is parsed to its two numbers, where they fit an `int` and no digit
-- follows them.
pub parse_kernel_version-text :
    (major minor : ℕ) (rest : Bytes)
    → major < 2 ^ 31
    → minor < 2 ^ 31
    → stops is_digit rest ≡ true
    → parse_kernel_version
        (codes "Linux version " ++ (decimal major ++ (codes "." ++ (decimal minor ++ rest))))
      ≡ record { major = pos major; minor = pos minor }
unfolding parse_version_numbers starts_with
parse_kernel_version-text major minor rest h g e =
    parse_kernel_version-prefix (decimal major ++ (codes "." ++ (decimal minor ++ rest)))
    ∙ rw
        (
          parse_version_numbers,
          int_from_chars-decimal major (codes "." ++ (decimal minor ++ rest)) h refl,
          int_from_chars-decimal minor rest g e,
        )
        refl
