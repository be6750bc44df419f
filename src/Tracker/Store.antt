-- ===== src/Tracker/Store.antt =====
-- The table of threads: what a write to it changes, and which writes belong to a thread.
use tracey_mctraceface.Base.{
  ◌≡◌, refl, ap, ◌∙◌, true, List, [], ◌∷◌, ◌++◌, none, some, arith, if◌then◌else◌, Bool-cases, inl,
  inr,
}
use tracey_mctraceface.Thread.{ThreadInfo, Write}
use tracey_mctraceface.Tracker.{
  ThreadKey, same_key, Threads, ThreadWrite, lookup, get_thread, put_thread, tagged,
}

pub same_key_refl : (k : ThreadKey) → same_key k k ≡ true
same_key_refl k = ground arith

pub same_key-eq : (j k : ThreadKey) → same_key j k ≡ true → j ≡ k
same_key-eq j k h = ground arith

pub lookup-put_thread :
    (j k : ThreadKey) (i : ThreadInfo) (m : Threads)
    → lookup j (put_thread k i m) ≡ (if same_key k j then some i else lookup j m)
unfolding lookup put_thread
lookup-put_thread j k i [] = refl
lookup-put_thread j k i ((l, old) ∷ m) = ground (arith, lookup-put_thread j k i m)

pub get_thread-put_thread :
    (j k : ThreadKey) (i : ThreadInfo) (m : Threads)
    → get_thread j (put_thread k i m) ≡ (if same_key k j then i else get_thread j m)
unfolding get_thread
get_thread-put_thread j k i m = ground (arith, lookup-put_thread j k i m)

-- No key stands twice.
abbrev pub Unique : Threads → Type 0
Unique [] = Unit {0}
Unique ((k, i) ∷ m) = (lookup k m ≡ none) × Unique m

pub put_thread-Unique :
    (k : ThreadKey) (i : ThreadInfo) (m : Threads) → Unique m → Unique (put_thread k i m)
unfolding put_thread lookup
put_thread-Unique k i [] u = (refl, tt)
put_thread-Unique k i ((j, old) ∷ m) u = elim (Bool-cases (same_key j k)) [
  | inl same ↦ rw same (u.0, u.1)
  | inr other ↦
      rw other (lookup-put_thread j k i m ∙ ground (arith, u.0), put_thread-Unique k i m u.1)
]

-- The writes for one thread, in order.
unfoldable pub writes_of : ThreadKey → List ThreadWrite → List Write
writes_of k [] = []
writes_of k (w ∷ ws) = if same_key w.key k then w.write ∷ writes_of k ws else writes_of k ws

pub writes_of-append :
    (k : ThreadKey) (xs ys : List ThreadWrite)
    → writes_of k (xs ++ ys) ≡ writes_of k xs ++ writes_of k ys
unfolding writes_of
writes_of-append k [] ys = refl
writes_of-append k (x ∷ xs) ys = elim (Bool-cases (same_key x.key k)) [
  | inl same ↦ rw same (ap (◌∷◌ x.write) (writes_of-append k xs ys))
  | inr other ↦ rw other (writes_of-append k xs ys)
]

pub writes_of-tagged :
    (j k : ThreadKey) (ws : List Write)
    → writes_of j (tagged k ws) ≡ (if same_key k j then ws else [])
unfolding writes_of
writes_of-tagged j k [] = ground arith
writes_of-tagged j k (w ∷ ws) = ground (arith, writes_of-tagged j k ws)
