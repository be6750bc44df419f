-- ===== src/Wire.antt =====
-- include/tracey_mctraceface/fxt.bes.xml: the fixed-size pieces that the writer hands to the sink, each
-- with the fields that its setters set, and the layout that the schema gives them. The classes that
-- are generated from the schema are not under src/: `layout` is the schema's, and no theorem speaks
-- of the bytes that a generated class makes of it.
use tracey_mctraceface.Base.{ℕ, ◌+◌, ◌/◌, List, [], ◌∷◌, Bytes, length}

pub data Chunk : Type 0 where
  magic_number : (magic : ℕ) → Chunk
  provider_info_header : (rtype rsize mtype provider_id name_len : ℕ) → Chunk
  provider_section : (rtype rsize mtype provider_id : ℕ) → Chunk
  init_record : (rtype rsize ticks_per_second base_ticks base_time_ns : ℕ) → Chunk
  thread_record : (rtype rsize thread_index pid tid : ℕ) → Chunk
  string_header : (rtype rsize string_id str_len : ℕ) → Chunk
  event_header :
      (rtype rsize event_type num_args thread_ref category_ref name_ref timestamp : ℕ) → Chunk
  kernel_object_header : (rtype rsize obj_type name_ref num_args koid : ℕ) → Chunk
  arg_koid : (arg_type arg_size arg_name value : ℕ) → Chunk
  raw : Bytes → Chunk

-- A field of so many bits, and its value; a padding has the value 0.
pub record Field : Type 0 where
  pub bits : ℕ
  pub value : ℕ

abbrev field : ℕ → ℕ → Field
field bits value = record { bits = bits; value = value }

abbrev pub layout : Chunk → List Field
layout (magic_number magic) = field 64 magic ∷ []
layout (provider_info_header rtype rsize mtype provider_id name_len) =
    field 4 rtype
    ∷ field 12 rsize
    ∷ field 4 mtype
    ∷ field 32 provider_id
    ∷ field 8 name_len
    ∷ field 4 0
    ∷ []
layout (provider_section rtype rsize mtype provider_id) =
    field 4 rtype ∷ field 12 rsize ∷ field 4 mtype ∷ field 32 provider_id ∷ field 12 0 ∷ []
layout (init_record rtype rsize ticks base_ticks base_time) =
    field 4 rtype
    ∷ field 12 rsize
    ∷ field 48 0
    ∷ field 64 ticks
    ∷ field 64 base_ticks
    ∷ field 64 base_time
    ∷ []
layout (thread_record rtype rsize thread_index pid tid) =
    field 4 rtype
    ∷ field 12 rsize
    ∷ field 8 thread_index
    ∷ field 40 0
    ∷ field 64 pid
    ∷ field 64 tid
    ∷ []
layout (string_header rtype rsize string_id str_len) =
    field 4 rtype
    ∷ field 12 rsize
    ∷ field 15 string_id
    ∷ field 1 0
    ∷ field 15 str_len
    ∷ field 17 0
    ∷ []
layout (event_header rtype rsize event_type num_args thread_ref category_ref name_ref timestamp) =
    field 4 rtype
    ∷ field 12 rsize
    ∷ field 4 event_type
    ∷ field 4 num_args
    ∷ field 8 thread_ref
    ∷ field 16 category_ref
    ∷ field 16 name_ref
    ∷ field 64 timestamp
    ∷ []
layout (kernel_object_header rtype rsize obj_type name_ref num_args koid) =
    field 4 rtype
    ∷ field 12 rsize
    ∷ field 8 obj_type
    ∷ field 16 name_ref
    ∷ field 4 num_args
    ∷ field 20 0
    ∷ field 64 koid
    ∷ []
layout (arg_koid arg_type arg_size arg_name value) =
    field 4 arg_type ∷ field 12 arg_size ∷ field 16 arg_name ∷ field 32 0 ∷ field 64 value ∷ []
layout (raw bytes) = []

abbrev pub total_bits : List Field → ℕ
total_bits [] = 0
total_bits (f ∷ fs) = f.bits + total_bits fs

-- The bytes that a piece takes in the output.
abbrev pub chunk_bytes : Chunk → ℕ
chunk_bytes (raw bytes) = length bytes
chunk_bytes chunk = total_bits (layout chunk) / 8
