-- ===== src/Modal/Laws.antt =====
-- A dialog gives the page back as it was, and Escape closes it by its latest callback.
use mathlib.Core.List.{append-nil}
use poolx.Common.{
  ℕ, ◌≤◌, ◌<◌, Bool, true, false, not, List, [], ◌∷◌, ◌++◌, if◌then◌else◌, Option, none, some, map,
  filter, filter-append, ◌≡◌, refl, sym, ap, ◌∙◌, arith, All, Bool-cases, inl, inr, ◌⊎◌, ◌==◌,
  ==_refl, nat_eq,
}
use poolx.Common.Text.{Text, units}
use poolx.Modal.{
  Document, State, set_up, clean_up, same_deps, Event, rendered, unmounted, step, run, mount,
  press_escape,
}

-- What the dialog does to the page, by the properties it was rendered with last.
abbrev pub overflow_for : Text → Option (Bool × ℕ) → Text
overflow_for before (some (true, on_close)) = units "hidden"
overflow_for before _ = before

abbrev pub callbacks_for : Option (Bool × ℕ) → List ℕ
callbacks_for (some (true, on_close)) = on_close ∷ []
callbacks_for _ = []

-- The properties that a dialog was rendered with last, by the events alone; none where it is away.
abbrev pub last_rendered : Option (Bool × ℕ) → List Event → Option (Bool × ℕ)
last_rendered props [] = props
last_rendered props (rendered is_open on_close ∷ es) = last_rendered (some (is_open, on_close)) es
last_rendered props (unmounted ∷ es) = last_rendered none es

same_deps-same :
    (deps : Option (Bool × ℕ)) (is_open : Bool) (on_close : ℕ)
    → same_deps deps is_open on_close ≡ true
    → deps ≡ some (is_open, on_close)
same_deps-same none is_open on_close h = absurd (ground (arith, h))
same_deps-same (some (true, c)) true on_close h = ap (λ n. some (true, n)) (ground arith)
same_deps-same (some (true, c)) false on_close h = absurd (ground (arith, h))
same_deps-same (some (false, c)) true on_close h = absurd (ground (arith, h))
same_deps-same (some (false, c)) false on_close h = ap (λ n. some (false, n)) (ground arith)

step-deps :
    (s : State) (is_open : Bool) (on_close : ℕ)
    → (step s (rendered is_open on_close)).deps ≡ some (is_open, on_close)
unfolding step
step-deps s is_open on_close = elim (Bool-cases (same_deps s.deps is_open on_close)) [
  | inl same ↦ rw same (same_deps-same s.deps is_open on_close same)
  | inr changed ↦ rw changed refl
]

run-deps : (s : State) (es : List Event) → (run s es).deps ≡ last_rendered s.deps es
unfolding run step
run-deps s [] = refl
run-deps s (rendered is_open on_close ∷ es) =
    run-deps (step s (rendered is_open on_close)) es
    ∙ ap (λ props. last_rendered props es) (step-deps s is_open on_close)
run-deps s (unmounted ∷ es) = run-deps (step s unmounted) es

-- The listeners of the page are older than the next one.
abbrev pub AreOlder : Document → Type 0
AreOlder d = All (λ l. l.0 < d.next) d.listeners

module _ (d : Document) where
  -- The dialog is closed and the page is untouched.
  record IsClosed (s : State) : Type 0 where
    active : s.active ≡ none
    callbacks : callbacks_for s.deps ≡ []
    shown : overflow_for d.overflow s.deps ≡ d.overflow
    overflow : s.document.overflow ≡ d.overflow
    listeners : s.document.listeners ≡ d.listeners
    later : d.next ≤ s.document.next

  -- The dialog is open with one listener.
  record IsOpen (s : State) (id on_close : ℕ) : Type 0 where
    active : s.active ≡ some (d.overflow, id)
    deps : s.deps ≡ some (true, on_close)
    overflow : s.document.overflow ≡ units "hidden"
    listeners : s.document.listeners ≡ d.listeners ++ (id, on_close) ∷ []
    fresh : d.next ≤ id
    later : id < s.document.next

  abbrev IsValid : State → Type 0
  IsValid s = IsClosed s ⊎ ((id : ℕ) × (on_close : ℕ) × IsOpen s id on_close)

  without_fresh :
      (id : ℕ) (ls : List (ℕ × ℕ))
      → All (λ l. l.0 < d.next) ls
      → d.next ≤ id
      → filter (λ l. not (l.0 == id)) ls ≡ ls
  without_fresh id [] h le = refl
  without_fresh id (l ∷ ls) (k, h) le = ground (arith, without_fresh id ls h le)

  removed :
      (id on_close : ℕ)
      → AreOlder d
      → d.next ≤ id
      → filter (λ l. not (l.0 == id)) (d.listeners ++ (id, on_close) ∷ []) ≡ d.listeners
  removed id on_close h le =
      filter-append (λ l. not (l.0 == id)) d.listeners ((id, on_close) ∷ [])
      ∙ rw (without_fresh id d.listeners h le, own) (append-nil d.listeners)
    where
      own : (id == id) ≡ true
      own = ==_refl id

  -- After the clean-up the page is as it was.
  record IsClean (s : State) : Type 0 where
    active : s.active ≡ none
    overflow : s.document.overflow ≡ d.overflow
    listeners : s.document.listeners ≡ d.listeners
    later : d.next ≤ s.document.next

  clean_up-IsClean : (s : State) → AreOlder d → IsValid s → IsClean (clean_up s)
  unfolding clean_up
  clean_up-IsClean s h (inl v) =
      rw v.active
        (record { active = refl; overflow = v.overflow; listeners = v.listeners; later = v.later })
  clean_up-IsClean s h (inr (id, on_close, v)) = rw v.active (record {
    active = refl;
    overflow = refl;
    listeners = rw v.listeners (removed id on_close h v.fresh);
    later = omega (arith, v.fresh, v.later);
  })

  -- What a change of the properties leaves, after the clean-up.
  next-IsClosed :
      (s : State) (on_close : ℕ) → IsClean s → IsClosed (record s { deps = some (false, on_close) })
  next-IsClosed s on_close v = record {
    active = v.active;
    callbacks = refl;
    shown = refl;
    overflow = v.overflow;
    listeners = v.listeners;
    later = v.later;
  }

  next-IsOpen :
      (s : State) (on_close : ℕ)
      → IsClean s
      → IsOpen
          (record (set_up on_close s) { deps = some (true, on_close) })
          s.document.next
          on_close
  unfolding set_up
  next-IsOpen s on_close v = record {
    active = ap (λ o. some (o, s.document.next)) v.overflow;
    deps = refl;
    overflow = refl;
    listeners = rw v.listeners refl;
    fresh = v.later;
    later = omega arith;
  }

  step-IsValid : (s : State) (e : Event) → AreOlder d → IsValid s → IsValid (step s e)
  unfolding step
  step-IsValid s (rendered is_open on_close) h v =
      elim (Bool-cases (same_deps s.deps is_open on_close)) [
        | inl same ↦ rw same v
        | inr changed ↦ rw changed (changed_valid is_open)
      ]
    where
      changed_valid :
          (is_open : Bool)
          → IsValid (record (if is_open then set_up on_close (clean_up s) else clean_up s) {
            deps = some (is_open, on_close);
          })
      changed_valid true =
          inr (_, on_close, next-IsOpen (clean_up s) on_close (clean_up-IsClean s h v))
      changed_valid false = inl (next-IsClosed (clean_up s) on_close (clean_up-IsClean s h v))
  step-IsValid s unmounted h v =
      let c = clean_up-IsClean s h v in
      inl (record {
        active = c.active;
        callbacks = refl;
        shown = refl;
        overflow = c.overflow;
        listeners = c.listeners;
        later = c.later;
      })

  run-IsValid : (s : State) (es : List Event) → AreOlder d → IsValid s → IsValid (run s es)
  unfolding run
  run-IsValid s [] h v = v
  run-IsValid s (e ∷ es) h v = run-IsValid (step s e) es h (step-IsValid s e h v)

  mount-IsValid : IsValid (mount d)
  mount-IsValid = inl (record {
    active = refl;
    callbacks = refl;
    shown = refl;
    overflow = refl;
    listeners = refl;
    later = omega arith;
  })

  calls :
      (xs ys : List (ℕ × ℕ)) → map (λ l. l.1) (xs ++ ys) ≡ map (λ l. l.1) xs ++ map (λ l. l.1) ys
  calls [] ys = refl
  calls (x ∷ xs) ys = ap (λ l. x.1 ∷ l) (calls xs ys)

  valid_page :
      (s : State)
      → IsValid s
      → (s.document.overflow ≡ overflow_for d.overflow s.deps)
        × (press_escape s.document ≡ press_escape d ++ callbacks_for s.deps)
  valid_page s (inl v) =
      (v.overflow ∙ sym v.shown, rw (v.listeners, v.callbacks) (sym (append-nil (press_escape d))))
  valid_page s (inr (id, on_close, v)) = (
    rw (v.overflow, v.deps) refl,
    rw (v.listeners, v.deps) (calls d.listeners ((id, on_close) ∷ [])),
  )

  -- However a dialog is rendered, with whatever callbacks, and taken away: where it was rendered open
  -- last, the page cannot be scrolled, and a press of Escape calls the callback of that last render
  -- once, after the listeners that the page had; where it was rendered closed last, taken away or
  -- never rendered, the page has the overflow that it had before, and a press of Escape calls the
  -- listeners that it had and nothing more. The listeners that the page had are older than any that
  -- a dialog adds.
  pub run-mount :
      (es : List Event)
      → AreOlder d
      → let s = run (mount d) es in
        let props = last_rendered none es in
        (s.document.overflow ≡ overflow_for d.overflow props)
        × (press_escape s.document ≡ press_escape d ++ callbacks_for props)
  run-mount es h =
      let s = run (mount d) es in
      let same : s.deps ≡ last_rendered none es = run-deps (mount d) es in
      let page = valid_page s (run-IsValid (mount d) es h mount-IsValid) in
      (
        page.0 ∙ ap (overflow_for d.overflow) same,
        page.1 ∙ ap (λ props. press_escape d ++ callbacks_for props) same,
      )
