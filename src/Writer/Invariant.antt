-- ===== src/Writer/Invariant.antt =====
-- The writer's tables are in order, and a reader of the trace has the same ones.
use tracey_mctraceface.Base.{
  ℕ, ◌+◌, ◌%◌, ◌^◌, ◌≤◌, ◌<◌, ◌≡◌, ◌≢◌, refl, sym, ap, ◌∙◌, true, [], ◌∷◌, none, some, Bytes, equal,
  equal_iff, ltb, length, take, replicate, arith, Bool-cases, inl, inr, subst, length-append,
  length-take,
}
use tracey_mctraceface.Table.{Table, find, Distinct}
use tracey_mctraceface.Wire.{Chunk, string_header, raw}
use tracey_mctraceface.Writer.{
  FxtWriter, emit, pad_to_word, padding, words_for_bytes, truncate, emit_string_record,
  max_string_id, max_string_length, kept_length, ellipsis,
}
use tracey_mctraceface.Writer.Reader.{Reader, reader, read_chunk, read_all-concat, update, read_raw}

pub equal_eq : (a b : Bytes) → equal a b ≡ true → a ≡ b
equal_eq a b = (equal_iff a b).0

-- Every number in use lies from 1 to below `next`.
abbrev pub Below {ℓ} : {K : Type ℓ} → ℕ → Table K → Type 0
Below next [] = Unit {0}
Below next ((k, i) ∷ t) = (1 ≤ i) × (i < next) × Below next t

-- The strings: numbers are distinct and in range, there is an entry to evict once the numbers are
-- used up, and each entry is known to the reader under its number, as truncated.
pub record StringsOk (table : Table Bytes) (next : ℕ) (r : Reader) : Type 0 where
  pub distinct : Distinct equal table
  pub below : Below next table
  pub next_pos : 1 ≤ next
  pub next_bound : next ≤ max_string_id + 1
  pub full : max_string_id < next → table ≢ []
  pub quiet : r.announced ≡ none
  pub known : (s : Bytes) (id : ℕ) → find equal s table ≡ some id → r.strings id ≡ some (truncate s)

abbrev pub StringsValid : FxtWriter → Type 0
StringsValid w = StringsOk w.string_table w.next_string_id (reader w)

pub StringsOk-subst :
    {t t' : Table Bytes} {n n' : ℕ} {r r' : Reader}
    → t' ≡ t
    → n' ≡ n
    → r' ≡ r
    → StringsOk t n r
    → StringsOk t' n' r'
StringsOk-subst {t' = t'} {n = n} {n' = n'} {r = r} p q e v =
    subst (StringsOk t' n') (sym e)
      (subst (λ m. StringsOk t' m r) (sym q) (subst (λ x. StringsOk x n r) (sym p) v))

kept_length-lt : kept_length + 14 < max_string_length
unfolding kept_length
kept_length-lt = omega arith

-- Whatever the string is, what a string record holds of it has at most 31999 bytes, the marker of a
-- string that was cut off included.
pub length-truncate : (s : Bytes) → length (truncate s) ≤ max_string_length
unfolding truncate
length-truncate s = elim (Bool-cases (ltb max_string_length (length s))) [
  | inl long ↦ rw long (
      omega (
        arith,
        length-append (take kept_length s) ellipsis,
        length-take kept_length s,
        kept_length-lt,
      ))
  | inr short ↦ rw short (ground arith)
]

take_all : (xs : Bytes) → take (length xs) xs ≡ xs
take_all [] = refl
take_all (x ∷ xs) = ap (◌∷◌ x) (take_all xs)

-- What the reader makes of the pieces that follow a string header.
pub reader-emit : (c : Chunk) (w : FxtWriter) → reader (emit c w) ≡ read_chunk c (reader w)
reader-emit c w = read_all-concat w.sink c _

read_raw_quiet : (r : Reader) (bytes : Bytes) → r.announced ≡ none → read_chunk (raw bytes) r ≡ r
read_raw_quiet r bytes q = rw (q, read_raw)

reader-pad_to_word :
    (n : ℕ) (w : FxtWriter) → (reader w).announced ≡ none → reader (pad_to_word n w) ≡ reader w
unfolding pad_to_word
reader-pad_to_word n w q = elim (Bool-cases (ltb 0 (padding n))) [
  | inl more ↦
      rw more (reader-emit (raw (replicate (padding n) 0)) w ∙ read_raw_quiet (reader w) _ q)
  | inr nothing ↦ rw nothing
]

-- After a string record the reader has the string under its number, and all else as before.
abbrev pub learn : ℕ → Bytes → Reader → Reader
learn id s r = record r { strings = update r.strings id (truncate s); announced = none }

abbrev learn_as : ℕ → Bytes → Reader → Reader
learn_as id bytes r = record r { strings = update r.strings id bytes; announced = none }

pub reader-emit_string_record :
    (id : ℕ) (s : Bytes) (w : FxtWriter)
    → reader (emit_string_record id s w) ≡ learn id s (reader w)
unfolding emit_string_record
reader-emit_string_record id s w =
    let len = length (truncate s) % 2 ^ 16 in
    let len_eq : len ≡ length (truncate s) = omega (arith, length-truncate s) in
    let header = string_header 2 ((1 + words_for_bytes len) % 2 ^ 16) id len in
    let body = raw (take len (truncate s)) in
    let e : reader (emit body (emit header w)) ≡ learn id s (reader w) =
      reader-emit body (emit header w)
      ∙ ap (read_chunk body) (reader-emit header w)
      ∙ ap (λ n. learn_as id (take n (truncate s)) (reader w)) len_eq
      ∙ ap (λ b. learn_as id b (reader w)) (take_all (truncate s)) in
    reader-pad_to_word len _ (ap (λ r. r.announced) e) ∙ e
