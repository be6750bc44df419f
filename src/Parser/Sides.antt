-- ===== src/Parser/Sides.antt =====
-- lib/perf_script_parser.cpp: one side of a branch, as `perf script` prints it.
use tracey_mctraceface.Base.{
  ℕ, ◌%◌, ◌^◌, ◌<◌, ◌≡◌, refl, true, false, [], ◌∷◌, ◌++◌, none, Bytes, codes, is_empty, length,
  drop, arith,
}
use tracey_mctraceface.Event.{Location}
use tracey_mctraceface.Parser.Scan.{rfind_text, is_space}
use tracey_mctraceface.Parser.Branches.{parse_location, parse_source, parse_destination}
use tracey_mctraceface.Parser.Headers.{spaces, skip_spaces-spaces}
use tracey_mctraceface.Parser.Locations.{
  hex, take_front, find_text-space, parse_symbol_and_offset-text,
}
use tracey_mctraceface.Parser.Numbers.{stops}
use tracey_mctraceface.Parser.Addresses.{
  LowerHex, hex-LowerHex, hex-filled, LowerHex-lacks, consume_hex-hex, parse_hex64-address,
  lower_not,
}

-- A symbol with its offset and its object, and one side of a branch.
abbrev pub location_text : Bytes → ℕ → Bytes → Bytes
location_text symbol offset dso = symbol ++ (codes "+0x" ++ (hex offset ++ (codes " " ++ dso)))

abbrev pub side_text : ℕ → Bytes → ℕ → Bytes → Bytes
side_text ip symbol offset dso = hex ip ++ (codes " " ++ location_text symbol offset dso)

-- What can be printed for a side: the numbers fit 64 bits, no "+0x" stands behind the offset, and the
-- symbol does not begin with a space.
pub record IsSide (ip : ℕ) (symbol : Bytes) (offset : ℕ) (dso : Bytes) : Type 0 where
  pub ip_fits : ip < 2 ^ 64
  pub offset_fits : offset < 2 ^ 64
  pub one_offset : rfind_text (codes "+0x") dso ≡ none
  pub no_space_first : stops is_space (location_text symbol offset dso) ≡ true

abbrev pub location_of : ℕ → Bytes → ℕ → Location
location_of ip symbol offset = record { ip = ip; symbol = symbol; symbol_offset = offset % 2 ^ 32 }

pub parse_location-text :
    (ip : ℕ) (symbol : Bytes) (offset : ℕ) (dso : Bytes)
    → IsSide ip symbol offset dso
    → parse_location (hex ip) (location_text symbol offset dso) ≡ location_of ip symbol offset
unfolding parse_location
parse_location-text ip symbol offset dso s =
    rw
      (
        parse_hex64-address ip s.ip_fits,
        parse_symbol_and_offset-text symbol offset dso s.offset_fits s.one_offset,
      )
      refl

pub drop_all : (s t : Bytes) → drop (length s) (s ++ t) ≡ t
drop_all [] t = refl
drop_all (c ∷ s) t = drop_all s t

pub parse_source-text :
    (ip : ℕ) (symbol : Bytes) (offset : ℕ) (dso : Bytes)
    → IsSide ip symbol offset dso
    → parse_source (side_text ip symbol offset dso) ≡ location_of ip symbol offset
unfolding parse_source
parse_source-text ip symbol offset dso s =
    let loc = location_text symbol offset dso in
    rw
      (
        parse_source,
        find_text-space (hex ip) loc (LowerHex-lacks b' ' (hex ip) refl (hex-LowerHex ip)),
        take_front (hex ip) (codes " " ++ loc),
        drop_all (hex ip) (codes " " ++ loc),
        skip_spaces-spaces 1 loc s.no_space_first,
      )
      (parse_location-text ip symbol offset dso s)

pub LowerHex-stops :
    (xs ys : Bytes) → LowerHex xs → is_empty xs ≡ false → stops is_space (xs ++ ys) ≡ true
LowerHex-stops [] ys h e = ground arith
LowerHex-stops (c ∷ xs) ys h e =
    let a = lower_not c b' ' refl h.0 in let b = lower_not c 9 refl h.0 in rw (a, b) refl

pub hex-stops : (n : ℕ) (ys : Bytes) → stops is_space (hex n ++ ys) ≡ true
hex-stops n ys = LowerHex-stops (hex n) ys (hex-LowerHex n) (hex-filled n)

pub parse_destination-text :
    (pad ip : ℕ) (symbol : Bytes) (offset : ℕ) (dso : Bytes)
    → IsSide ip symbol offset dso
    → parse_destination (spaces pad ++ side_text ip symbol offset dso)
      ≡ location_of ip symbol offset
unfolding parse_destination
parse_destination-text pad ip symbol offset dso s =
    let loc = location_text symbol offset dso in
    rw
      (
        skip_spaces-spaces pad (side_text ip symbol offset dso) (hex-stops ip (codes " " ++ loc)),
        consume_hex-hex ip loc,
        skip_spaces-spaces 1 loc s.no_space_first,
      )
      (parse_location-text ip symbol offset dso s)
