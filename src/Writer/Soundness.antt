-- ===== src/Writer/Soundness.antt =====
-- A writer whose output is in order, and what its operations add to the events that a reader sees.
use tracey_mctraceface.Base.{
  ℕ, ◌≡◌, refl, sym, ap, ◌∙◌, List, [], ◌∷◌, ◌++◌, Option, some, Bytes, map, append_assoc,
  append-nil, subst, map-append,
}
use tracey_mctraceface.Tracker.{ThreadKey}
use tracey_mctraceface.Wire.{event_header}
use tracey_mctraceface.Writer.{FxtWriter, intern_string, ensure_thread, write_event_by_id}
use tracey_mctraceface.Writer.Reader.{Reader, ReadEvent, reader}
use tracey_mctraceface.Writer.Framing.{
  IsFramed, intern_string-IsFramed, ensure_thread-IsFramed, write_event_by_id-IsFramed,
}
use tracey_mctraceface.Writer.Invariant.{StringsValid, reader-emit}
use tracey_mctraceface.Writer.Strings.{intern_string-StringsValid}
use tracey_mctraceface.Writer.Threads.{
  ThreadsOk, ThreadsValid, SameThreads-ThreadsValid, intern_string-SameThreads,
  ensure_thread-ThreadsValid, ensure_thread-events,
}
use tracey_mctraceface.Writer.Events.{emit-StringsValid, ensure_thread-StringsValid}

-- The output is a sequence of whole records, and a reader has the strings and the threads that the
-- writer's tables name.
pub record IsSound (w : FxtWriter) : Type 0 where
  pub framed : IsFramed w
  pub strings : StringsValid w
  pub threads : ThreadsValid w

-- An event without its texts.
pub record Mark : Type 0 where
  pub event_type : ℕ
  pub thread : Option ThreadKey
  pub timestamp : ℕ

abbrev pub mark : ReadEvent → Mark
mark e = record { event_type = e.event_type; thread = e.thread; timestamp = e.timestamp }

abbrev pub marks : FxtWriter → List Mark
marks w = map mark (reader w).events

-- The writer went on from `w` to `u`, in order, and a reader sees `ms` more.
pub record Shows (ms : List Mark) (w u : FxtWriter) : Type 0 where
  pub sound : IsSound u
  pub shown : marks u ≡ marks w ++ ms

pub Shows-trans :
    (ms ns : List Mark) {w u v : FxtWriter} → Shows ms w u → Shows ns u v → Shows (ms ++ ns) w v
Shows-trans ms ns {w} a b = record {
  sound = b.sound;
  shown = b.shown ∙ ap (λ l. l ++ ns) a.shown ∙ append_assoc (marks w) ms ns;
}

pub Shows-none :
    {w u : FxtWriter} → IsSound u → (reader u).events ≡ (reader w).events → Shows [] w u
Shows-none {w} s e = record { sound = s; shown = ap (map mark) e ∙ sym (append-nil (marks w)) }

pub intern_string-Shows : (s : Bytes) (w : FxtWriter) → IsSound w → Shows [] w (intern_string s w).0
intern_string-Shows s w v =
    let same = intern_string-SameThreads s w in
    Shows-none
      (record {
        framed = intern_string-IsFramed s w v.framed;
        strings = intern_string-StringsValid s w v.strings;
        threads = SameThreads-ThreadsValid same v.threads;
      })
      same.events

pub ensure_thread-Shows :
    (k : ThreadKey) (w : FxtWriter) → IsSound w → Shows [] w (ensure_thread k w).0
ensure_thread-Shows k w v =
    Shows-none
      (record {
        framed = ensure_thread-IsFramed k w v.framed;
        strings = ensure_thread-StringsValid k w v.strings;
        threads = ensure_thread-ThreadsValid k w v.threads;
      })
      (ensure_thread-events k w)

-- An event shows its thread while the reader has the thread in that slot, and leaves the threads.
pub write_event_by_id-Shows :
    (k : ThreadKey) (event_type slot category_id name_id timestamp : ℕ) (w : FxtWriter)
    → IsSound w
    → (reader w).threads slot ≡ some k
    → let u = write_event_by_id event_type slot category_id name_id timestamp w in
      Shows (record { event_type = event_type; thread = some k; timestamp = timestamp } ∷ []) w u
      × ((reader u).threads slot ≡ some k)
unfolding write_event_by_id
write_event_by_id-Shows k event_type slot category_id name_id timestamp w v known =
    let c = event_header 4 2 event_type 0 slot category_id name_id timestamp in
    let e = reader-emit c w in
    (
      record {
        sound = record {
          framed =
              (unfold write_event_by_id in
                write_event_by_id-IsFramed event_type slot category_id name_id timestamp w
                  v.framed);
          strings = emit-StringsValid c w refl refl v.strings;
          threads =
              subst (ThreadsOk w.thread_table) (sym (ap (λ (r : Reader). r.threads) e)) v.threads;
        };
        shown =
            ap (λ (r : Reader). map mark r.events) e
            ∙ map-append mark (reader w).events _
            ∙ ap
                (λ t.
                  marks w
                  ++ record { event_type = event_type; thread = t; timestamp = timestamp } ∷ [])
                known;
      },
      ap (λ (r : Reader). r.threads slot) e ∙ known,
    )
