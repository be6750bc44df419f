-- ===== src/Writer.antt =====
-- lib/fxt_writer.cpp: `FxtWriter` over a sink that keeps what it is given. Warnings on `std::cerr`
-- are left out; the flag that keeps them to one is kept.
pub mod Reader
pub mod Invariant
pub mod Framing
pub mod Strings
pub mod Eviction
pub mod Threads
pub mod Slots
pub mod Capacity
pub mod Events
pub mod Soundness
use tracey_mctraceface.Base.{
  ℕ, zero, suc, ◌+◌, ◌-◌, ◌*◌, ◌/◌, ◌%◌, ◌^◌, Bool, true, false, not, ◌&&◌, ◌||◌, List, [], ◌∷◌,
  ◌++◌, Option, none, some, Bytes, codes, equal, is_empty, if◌then◌else◌, ◌==◌, ltb, leb, length,
  take, replicate,
}
use tracey_mctraceface.Table.{Table, find, erase_id, min_id}
use tracey_mctraceface.Tracker.{ThreadKey, same_key}
use tracey_mctraceface.Wire.{
  Chunk, magic_number, provider_info_header, provider_section, init_record, thread_record,
  string_header, event_header, kernel_object_header, arg_koid, raw,
}

abbrev pub max_string_id : ℕ
max_string_id = 32767

abbrev pub max_string_length : ℕ
max_string_length = 31999

abbrev pub max_thread_slots : ℕ
max_thread_slots = 255

abbrev pub fxt_magic : ℕ
fxt_magic = 0x0016547846040010

pub record FxtWriter : Type 0 where
  pub sink : List Chunk
  pub string_table : Table Bytes
  pub next_string_id : ℕ
  pub string_id_warning_issued : Bool
  pub thread_table : Table ThreadKey
  pub named_processes : List ℕ
  pub next_thread_slot : ℕ

abbrev pub new_writer : FxtWriter
new_writer = record {
  sink = [];
  string_table = [];
  next_string_id = 1;
  string_id_warning_issued = false;
  thread_table = [];
  named_processes = [];
  next_thread_slot = 0;
}

-- `sink_.write(chunk.buffer())`
abbrev pub emit : Chunk → FxtWriter → FxtWriter
emit chunk w = record w { sink = w.sink ++ chunk ∷ [] }

unfoldable pub words_for_bytes : ℕ → ℕ
words_for_bytes bytes = (bytes + 7) / 8 % 2 ^ 16

-- `(-byte_count) & 7`
unfoldable pub padding : ℕ → ℕ
padding byte_count = (2 ^ 64 - byte_count % 2 ^ 64) % 2 ^ 64 % 8

unfoldable pub pad_to_word : ℕ → FxtWriter → FxtWriter
pad_to_word byte_count w =
    if ltb 0 (padding byte_count) then emit (raw (replicate (padding byte_count) 0)) w else w

-- `max_string_length_ - 15`, and what takes the place of the rest.
unfoldable pub kept_length : ℕ
kept_length = max_string_length - 15

abbrev pub ellipsis : Bytes
ellipsis = codes "<...truncated>"

-- `effective`
unfoldable pub truncate : Bytes → Bytes
truncate s = if ltb max_string_length (length s) then take kept_length s ++ ellipsis else s

unfoldable pub emit_string_record : ℕ → Bytes → FxtWriter → FxtWriter
emit_string_record id s w =
    let effective = truncate s in
    let str_len = length effective % 2 ^ 16 in
    let rsize = (1 + words_for_bytes str_len) % 2 ^ 16 in
    pad_to_word str_len
      (emit (raw (take str_len effective)) (emit (string_header 2 rsize id str_len) w))

-- The way out when the numbers are used up: the entry with the smallest one is erased, and its number
-- is used again. The source reads the first entry; where there is none its behaviour is undefined,
-- and Invariant shows that there is one.
unfoldable pub evict : Table Bytes → Table Bytes × ℕ
evict [] = ([], 0)
evict ((s, i) ∷ t) = let id = min_id i ((s, i) ∷ t) in (erase_id id ((s, i) ∷ t), id)

-- A number for a new string.
unfoldable pub allocate_id : FxtWriter → FxtWriter × ℕ
allocate_id w =
    if leb w.next_string_id max_string_id
    then (record w { next_string_id = (w.next_string_id + 1) % 2 ^ 16 }, w.next_string_id)
    else (let (t, id) = evict w.string_table in
        (record w { string_table = t; string_id_warning_issued = true }, id))

-- `emplace`, and the record that tells the reader.
unfoldable pub define_string : Bytes → FxtWriter × ℕ → FxtWriter × ℕ
define_string s (w, id) =
    (emit_string_record id s (record w { string_table = (s, id) ∷ w.string_table }), id)

unfoldable pub intern_string : Bytes → FxtWriter → FxtWriter × ℕ
intern_string s w = if is_empty s then (w, 0) else elim (find equal s w.string_table) [
  | some id ↦ (w, id)
  | none ↦ define_string s (allocate_id w)
]

unfoldable pub emit_thread_record : ℕ → ThreadKey → FxtWriter → FxtWriter
emit_thread_record slot k w = emit (thread_record 3 3 slot k.pid k.tid) w

-- `std::to_string` of a 64-bit number: at most twenty digits.
unfoldable pub decimal_onto : ℕ → ℕ → Bytes → Bytes
decimal_onto zero n acc = acc
decimal_onto (suc fuel) n acc =
    let digits = (b'0' + n % 10) ∷ acc in
    let rest = decimal_onto fuel (n / 10) digits in if n / 10 == 0 then digits else rest

unfoldable pub decimal : ℕ → Bytes
decimal n = decimal_onto 20 n []

unfoldable pub write_process_name : ℕ → Bytes → FxtWriter → FxtWriter
write_process_name pid name w =
    let (w', name_id) = intern_string name w in emit (kernel_object_header 7 2 1 name_id 0 pid) w'

unfoldable pub write_thread_name : ThreadKey → Bytes → FxtWriter → FxtWriter
write_thread_name k name w =
    let (w', name_id) = intern_string name w in
    let (w'', process_str_id) = intern_string (codes "process") w' in
    emit (arg_koid 8 2 process_str_id k.pid) (emit (kernel_object_header 7 4 2 name_id 1 k.tid) w'')

unfoldable pub is_named : ℕ → List ℕ → Bool
is_named pid [] = false
is_named pid (p ∷ ps) = p == pid || is_named pid ps

-- The names that a new thread gets, and its process where that has none yet.
unfoldable pub name_thread : ThreadKey → FxtWriter → FxtWriter
name_thread k w =
    let process_name = codes "[pid=" ++ (decimal k.pid ++ codes "]") in
    let thread_name = codes "[tid=" ++ (decimal k.tid ++ codes "]") in
    write_thread_name k thread_name (
      if is_named k.pid w.named_processes
      then w
      else write_process_name k.pid process_name
          (record w { named_processes = k.pid ∷ w.named_processes }))

-- The slot that a new thread gets, and the table without the thread that had it.
unfoldable pub next_slot : FxtWriter → ℕ
next_slot w = (w.next_thread_slot % max_thread_slots + 1) % 2 ^ 8

unfoldable pub assign_slot : ThreadKey → FxtWriter → FxtWriter
assign_slot k w =
    let slot = next_slot w in
    emit_thread_record slot k (record w {
      thread_table = (k, slot) ∷ erase_id slot w.thread_table;
      next_thread_slot = (w.next_thread_slot + 1) % 2 ^ 8;
    })

unfoldable pub ensure_thread : ThreadKey → FxtWriter → FxtWriter × ℕ
ensure_thread k w = elim (find same_key k w.thread_table) [
  | some slot ↦ (w, slot)
  | none ↦ (name_thread k (assign_slot k w), next_slot w)
]

unfoldable pub write_event_by_id : ℕ → ℕ → ℕ → ℕ → ℕ → FxtWriter → FxtWriter
write_event_by_id event_type thread_ref category_id name_id timestamp w =
    emit (event_header 4 2 event_type 0 thread_ref category_id name_id timestamp) w

unfoldable pub emit_event : ℕ → ThreadKey → Bytes → Bytes → ℕ → FxtWriter → FxtWriter
emit_event event_type k category name timestamp w =
    let (w₁, thread_ref) = ensure_thread k w in
    let (w₂, cat_id) = intern_string category w₁ in
    let (w₃, name_id) = intern_string name w₂ in
    emit (event_header 4 2 event_type 0 thread_ref cat_id name_id timestamp) w₃

abbrev pub event_duration_begin : ℕ
event_duration_begin = 2

abbrev pub event_duration_end : ℕ
event_duration_end = 3

unfoldable pub write_duration_begin : ThreadKey → Bytes → Bytes → ℕ → FxtWriter → FxtWriter
write_duration_begin k category name = emit_event event_duration_begin k category name

unfoldable pub write_duration_end : ThreadKey → Bytes → Bytes → ℕ → FxtWriter → FxtWriter
write_duration_end k category name = emit_event event_duration_end k category name

-- `std::min(provider_name.size(), 255)` as a `uint8_t`
unfoldable pub provider_name_len : Bytes → ℕ
provider_name_len name = (if ltb 255 (length name) then 255 else length name) % 2 ^ 8

unfoldable pub write_preamble : Bytes → ℕ → ℕ → ℕ → ℕ → FxtWriter → FxtWriter
write_preamble provider_name provider_id ticks_per_second base_ticks base_time_ns w =
    let name_len = provider_name_len provider_name in
    let rsize = (1 + words_for_bytes name_len) % 2 ^ 16 in
    let w₁ = emit (magic_number fxt_magic) w in
    let w₂ = emit (provider_info_header 0 rsize 1 provider_id name_len) w₁ in
    let w₃ = pad_to_word name_len (emit (raw (take name_len provider_name)) w₂) in
    let w₄ = emit (provider_section 0 1 2 provider_id) w₃ in
    emit (init_record 1 4 ticks_per_second base_ticks base_time_ns) w₄
