-- ===== src/Writer/Framing/Frames.antt =====
-- Records as a sequence of pieces: each begins with a header that states its size in words of 8 bytes.
use tracey_mctraceface.Base.{
  ℕ, ◌+◌, ◌-◌, ◌*◌, ◌%◌, ◌^◌, ◌<◌, ◌≡◌, refl, ap, ◌∙◌, List, [], ◌∷◌, ◌++◌, Option, none, some,
  if◌then◌else◌, leb, ◌==◌, arith,
}
use tracey_mctraceface.Wire.{
  Chunk, magic_number, provider_info_header, provider_section, init_record, thread_record,
  string_header, event_header, kernel_object_header, arg_koid, raw, chunk_bytes,
}
use tracey_mctraceface.Writer.{FxtWriter, padding, words_for_bytes}

-- The size in words that a header states; none for a piece that goes on with a record.
abbrev pub header_words : Chunk → Option ℕ
header_words (magic_number magic) = some 1
header_words (provider_info_header rtype rsize mtype provider_id name_len) = some rsize
header_words (provider_section rtype rsize mtype provider_id) = some rsize
header_words (init_record rtype rsize ticks base_ticks base_time) = some rsize
header_words (thread_record rtype rsize slot pid tid) = some rsize
header_words (string_header rtype rsize id len) = some rsize
header_words (event_header rtype rsize event_type num_args slot category name timestamp) =
    some rsize
header_words (kernel_object_header rtype rsize obj_type name num_args koid) = some rsize
header_words (arg_koid arg_type arg_size name value) = none
header_words (raw bytes) = none

-- With `open` bytes of the current record still to come, a piece takes its bytes from them; a header
-- begins a record, and only where none is open.
abbrev pub take_bytes : ℕ → ℕ → Option ℕ
take_bytes bytes left = if leb bytes left then some (left - bytes) else none

abbrev pub frame_header : Option ℕ → ℕ → ℕ → Option ℕ
frame_header none bytes left = take_bytes bytes left
frame_header (some words) bytes left = if left == 0 then take_bytes bytes (8 * words) else none

abbrev pub frame_chunk : Chunk → ℕ → Option ℕ
frame_chunk c left = frame_header (header_words c) (chunk_bytes c) left

abbrev pub bind_frame : Option ℕ → (ℕ → Option ℕ) → Option ℕ
bind_frame none f = none
bind_frame (some left) f = f left

unfoldable pub frame : List Chunk → ℕ → Option ℕ
frame [] left = some left
frame (c ∷ cs) left = bind_frame (frame_chunk c left) (frame cs)

-- The output so far is a sequence of whole records.
abbrev pub IsFramed : FxtWriter → Type 0
IsFramed w = frame w.sink 0 ≡ some 0

-- The output ends inside a record of which `left` bytes are missing.
abbrev pub Lacks : ℕ → List Chunk → Type 0
Lacks left cs = frame cs 0 ≡ some left

pub frame-concat :
    (cs : List Chunk) (c : Chunk) (m : ℕ)
    → frame (cs ++ c ∷ []) m ≡ bind_frame (frame cs m) (frame_chunk c)
unfolding frame
frame-concat [] c m = last (frame_chunk c m)
  where
    last : (r : Option ℕ) → bind_frame r (λ x. some x) ≡ r
    last none = refl
    last (some x) = refl
frame-concat (d ∷ cs) c m = rest (frame_chunk d m) (λ x. frame-concat cs c x)
  where
    rest :
        (r : Option ℕ)
        → ((x : ℕ) → frame (cs ++ c ∷ []) x ≡ bind_frame (frame cs x) (frame_chunk c))
        → bind_frame r (frame (cs ++ c ∷ [])) ≡ bind_frame (bind_frame r (frame cs)) (frame_chunk c)
    rest none ih = refl
    rest (some x) ih = ih x

pub emit-Lacks :
    (c : Chunk) (left left' : ℕ) (cs : List Chunk)
    → Lacks left cs
    → frame_chunk c left ≡ some left'
    → Lacks left' (cs ++ c ∷ [])
emit-Lacks c left left' cs f e = frame-concat cs c 0 ∙ ap (λ r. bind_frame r (frame_chunk c)) f ∙ e

pub take_bytes-add : (bytes left : ℕ) → take_bytes bytes (bytes + left) ≡ some left
take_bytes-add bytes left = ground arith

pub take_bytes-eq : (bytes left rest : ℕ) → left ≡ bytes + rest → take_bytes bytes left ≡ some rest
take_bytes-eq bytes left rest e = ap (take_bytes bytes) e ∙ take_bytes-add bytes rest

pub padding-eq : (n : ℕ) → n < 2 ^ 16 → n + padding n ≡ 8 * words_for_bytes n
unfolding padding words_for_bytes
padding-eq n h = omega arith

pub words_for_bytes-lt : (n : ℕ) → n < 2 ^ 16 → words_for_bytes n < 2 ^ 14
unfolding words_for_bytes
words_for_bytes-lt n h = omega arith

-- `rsize` of a record with `n` bytes behind a header of one word.
abbrev pub rsize_of : ℕ → ℕ
rsize_of n = (1 + words_for_bytes n) % 2 ^ 16

pub rsize_words : (n : ℕ) → n < 2 ^ 16 → 8 * rsize_of n ≡ 8 + (n + padding n)
rsize_words n h = omega (arith, padding-eq n h, words_for_bytes-lt n h)
