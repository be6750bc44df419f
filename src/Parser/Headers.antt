-- ===== src/Parser/Headers.antt =====
-- The header of an event, as `perf script --ns` prints it.
use tracey_mctraceface.Base.{
  ℕ, zero, suc, ◌≡◌, ap, Bool, true, false, not, [], ◌∷◌, ◌++◌, Bytes, codes, is_empty, replicate,
  ◌==◌, arith,
}
use tracey_mctraceface.Parser.Scan.{is_digit, is_space, skip_spaces}
use tracey_mctraceface.Parser.Numbers.{stops, drop_while-append}
use tracey_mctraceface.Parser.Digits.{nine, decimal-filled, decimal-Digits}
use tracey_mctraceface.Parser.Numbers.{Digits}
use tracey_mctraceface.Writer.{decimal}

abbrev pub spaces : ℕ → Bytes
spaces n = replicate n b' '

pub skip_spaces-stops : (s : Bytes) → stops is_space s ≡ true → skip_spaces s ≡ s
unfolding skip_spaces
skip_spaces-stops s h = drop_while-append is_space [] s tt h

pub skip_spaces-spaces :
    (n : ℕ) (s : Bytes) → stops is_space s ≡ true → skip_spaces (spaces n ++ s) ≡ s
unfolding skip_spaces
skip_spaces-spaces zero s h = skip_spaces-stops s h
skip_spaces-spaces (suc n) s h = skip_spaces-spaces n s h

digit-no_space : (c : ℕ) → is_digit c ≡ true → is_space c ≡ false
digit-no_space c h = ground (arith, h)

Digits-stops : (xs ys : Bytes) → Digits xs → is_empty xs ≡ false → stops is_space (xs ++ ys) ≡ true
Digits-stops [] ys h e = ground arith
Digits-stops (c ∷ xs) ys h e = ap not (digit-no_space c h.0)

pub decimal-stops : (n : ℕ) (ys : Bytes) → stops is_space (decimal n ++ ys) ≡ true
decimal-stops n ys = Digits-stops (decimal n) ys (decimal-Digits n) (decimal-filled n)

abbrev pub no_space : ℕ → Bool
no_space c = not (c == b' ')

-- The name, its configuration, and the rest of the line.
abbrev pub name_text : Bytes → Bytes → Bytes → Bytes
name_text name config rest = name ++ (config ++ rest)

-- A whole header.
abbrev pub header_text :
    (indent pid tid seconds nanoseconds gap period : ℕ) (name config rest : Bytes) → Bytes
header_text indent pid tid seconds nanoseconds gap period name config rest =
    spaces indent
    ++ (decimal pid
        ++ (codes "/"
            ++ (decimal tid
                ++ (codes " "
                    ++ (decimal seconds
                        ++ (codes "."
                            ++ (nine nanoseconds
                                ++ (codes ":"
                                    ++ (spaces gap
                                        ++ (decimal period
                                            ++ (codes " " ++ name_text name config rest)))))))))))
