-- ===== src/Cli/Does.antt =====
-- bin/tracey_mctraceface_main.cpp: what the steps of a command do, of which only some effects are looked
-- at.
use tracey_mctraceface.Base.{
  ◌≡◌, refl, sym, ap, ◌∙◌, List, [], ◌∷◌, ◌++◌, append-nil, append_assoc, Bytes, map, Bool, true,
  false, if◌then◌else◌,
}
use tracey_mctraceface.Base.Outcome.{throws, ok, done, continue, pure, ◌>>=◌}
use tracey_mctraceface.Cli.{Effect, says, World, Run, perform, say, log_info, log_debug, get}
use tracey_mctraceface.Log

-- What is looked at: what each effect shows, which for a line on `std::cerr` is nothing.
pub record View (B : Type 0) : Type 0 where
  pub select : Effect → List B
  pub says_nothing : (line : Bytes) → select (says line) ≡ []

module _ {B : Type 0} (v : View B) where
  open v use {select, says_nothing}

  unfoldable pub shown : List Effect → List B
  shown [] = []
  shown (e ∷ es) = select e ++ shown es

  pub shown-append : (xs ys : List Effect) → shown (xs ++ ys) ≡ shown xs ++ shown ys
  unfolding shown
  shown-append [] ys = refl
  shown-append (e ∷ xs) ys =
      ap (◌++◌ (select e)) (shown-append xs ys)
      ∙ sym (append_assoc (select e) (shown xs) (shown ys))

  shown-says : (lines : List Bytes) → shown (map says lines) ≡ []
  unfolding shown
  shown-says [] = refl
  shown-says (line ∷ lines) = rw (says_nothing line) (shown-says lines)

  -- `m` returns `a`, and its effects show just `ys`.
  pub record Does {A : Type 0} (m : Run A) (a : A) (ys : List B) : Type 0 where
    pub at :
        (w : World)
        → (es : List Effect) × (m w ≡ (ok a, record w { effects = w.effects ++ es }))
          × (shown es ≡ ys)

  pub Does-pure : {A : Type 0} (a : A) → Does (pure a) a []
  unfolding pure shown
  Does-pure a =
      let same =
        λ (w : World). ap (λ es. (ok a, record w { effects = es })) (sym (append-nil w.effects)) in
      record { at = λ w. ([], same w, refl) }

  pub Does-get : {A : Type 0} (a : A) → Does (get (ok a)) a []
  unfolding get shown
  Does-get a =
      let same =
        λ (w : World). ap (λ es. (ok a, record w { effects = es })) (sym (append-nil w.effects)) in
      record { at = λ w. ([], same w, refl) }

  pub Does-perform : (es : List Effect) (ys : List B) → shown es ≡ ys → Does (perform es) done ys
  unfolding perform
  Does-perform es ys h = record { at = λ w. (es, refl, h) }

  pub Does-say : (line : Bytes) → Does (say line) done []
  unfolding say perform
  Does-say line = record { at = λ w. (says line ∷ [], refl, shown-says (line ∷ [])) }

  pub Does-log_info : (line : Bytes) → Does (log_info line) done []
  unfolding log_info perform
  Does-log_info line = record { at = λ w. (_, refl, shown-says (Log.info w.level line)) }

  pub Does-log_debug : (line : Bytes) → Does (log_debug line) done []
  unfolding log_debug perform
  Does-log_debug line = record { at = λ w. (_, refl, shown-says (Log.debug w.level line)) }

  pub Does-if :
      {A : Type 0} (b : Bool) (m n : Run A) (a : A) (ys : List B)
      → Does m a ys
      → Does n a ys
      → Does (if b then m else n) a ys
  Does-if true m n a ys km kn = km
  Does-if false m n a ys km kn = kn

  pub Does-bind :
      {A C : Type 0} {m : Run A} (f : A → Run C) {a : A} {b : C} (xs ys : List B)
      → Does m a xs
      → Does (f a) b ys
      → Does (m >>= f) b (xs ++ ys)
  unfolding ◌>>=◌
  Does-bind {A} {C} {m} f {a} {b} xs ys first second = record { at = both }
    where
      both :
          (w : World)
          → (es : List Effect) × (continue f (m w) ≡ (ok b, record w { effects = w.effects ++ es }))
            × (shown es ≡ xs ++ ys)
      both w =
          let (es, goes, calls) = first.at w in
          let (es', goes', calls') = second.at (record w { effects = w.effects ++ es }) in
          (
            es ++ es',
            ap (continue f) goes
                ∙ (goes'
                    ∙ ap (λ x. (ok b, record w { effects = x })) (append_assoc w.effects es es')),
            shown-append es es' ∙ (ap (λ x. x ++ shown es') calls ∙ ap (◌++◌ xs) calls'),
          )

  -- `m` throws, and its effects up to then show just `ys`.
  pub record Fails {A : Type 0} (m : Run A) (e : Bytes) (ys : List B) : Type 0 where
    pub at :
        (w : World)
        → (es : List Effect) × (m w ≡ (throws e, record w { effects = w.effects ++ es }))
          × (shown es ≡ ys)

  pub Fails-get : {A : Type 0} (e : Bytes) → Fails (get {A = A} (throws e)) e []
  unfolding get shown
  Fails-get e =
      let same = λ (w : World).
        ap (λ es. (throws e, record w { effects = es })) (sym (append-nil w.effects)) in
      record { at = λ w. ([], same w, refl) }

  pub Fails-bind :
      {A C : Type 0} {m : Run A} (f : A → Run C) {a : A} {e : Bytes} (xs ys : List B)
      → Does m a xs
      → Fails (f a) e ys
      → Fails (m >>= f) e (xs ++ ys)
  unfolding ◌>>=◌
  Fails-bind {A} {C} {m} f {a} {e} xs ys first second = record { at = both }
    where
      both :
          (w : World)
          → (es : List Effect) × (continue f (m w)
              ≡ (throws e, record w { effects = w.effects ++ es }))
            × (shown es ≡ xs ++ ys)
      both w =
          let (es, goes, calls) = first.at w in
          let (es', goes', calls') = second.at (record w { effects = w.effects ++ es }) in
          (
            es ++ es',
            ap (continue f) goes
                ∙ (goes'
                    ∙ ap (λ x. (throws e, record w { effects = x }))
                        (append_assoc w.effects es es')),
            shown-append es es' ∙ (ap (λ x. x ++ shown es') calls ∙ ap (◌++◌ xs) calls'),
          )

  -- What is behind a step that throws is not done.
  pub Fails-first :
      {A C : Type 0} {m : Run A} (f : A → Run C) {e : Bytes} (ys : List B)
      → Fails m e ys
      → Fails (m >>= f) e ys
  unfolding ◌>>=◌
  Fails-first f ys first = record {
    at = λ w. let (es, goes, calls) = first.at w in (es, ap (continue f) goes, calls);
  }
