-- ===== src/Auth/Provider/Laws.antt =====
-- When the session of the console is known.
use poolx.Common.{
  ℕ, ◌<◌, true, false, List, [], ◌∷◌, Option, none, ◌≡◌, refl, arith, ◌==◌, nat_eq, Bool-cases, inl,
  inr,
}
use poolx.Auth.{AuthUser}
use poolx.Auth.Provider.{
  State, Event, initial, step, run, settled, refresh_called, logout_called, refresh_settled,
  logout_settled, user_set,
}

-- While the session is loading, a request for the user is under way, and nobody is signed in.
abbrev pub IsDue : State → Type 0
IsDue s = s.is_loading ≡ true → (0 < s.refreshing) × (s.user ≡ none)

step-IsDue : (e : Event) (s : State) → IsDue s → IsDue (step e s)
unfolding step settled
step-IsDue refresh_called s h = λ l. (omega arith, (h l).1)
step-IsDue logout_called s h = h
step-IsDue (refresh_settled user) s h = elim (Bool-cases (s.refreshing == 0)) [
  | inl e ↦ rw e h
  | inr e ↦ rw e (λ l. absurd (ground (arith, l)))
]
step-IsDue (logout_settled succeeded) s h = elim (Bool-cases (s.leaving == 0)) [
  | inl e ↦ rw e h
  | inr e ↦ rw e (λ l. absurd (ground (arith, l)))
]
step-IsDue (user_set user) s h = λ l. absurd (ground (arith, l))

pub run-IsDue : (es : List Event) (s : State) → IsDue s → IsDue (run es s)
unfolding run
run-IsDue [] s h = h
run-IsDue (e ∷ es) s h = run-IsDue es (step e s) (step-IsDue e s h)

-- The session of the console is not loading for ever: after any events, while it is loading, the
-- request for the user that will end this is under way, and nobody counts as signed in.
pub run-initial-IsDue : (es : List Event) → IsDue (run es initial)
run-initial-IsDue es = run-IsDue es initial (λ l. (omega arith, refl))

step-known : (e : Event) (s : State) → s.is_loading ≡ false → (step e s).is_loading ≡ false
unfolding step settled
step-known refresh_called s h = h
step-known logout_called s h = h
step-known (refresh_settled user) s h = elim (Bool-cases (s.refreshing == 0)) [
  | inl e ↦ rw e h
  | inr e ↦ rw e refl
]
step-known (logout_settled succeeded) s h = elim (Bool-cases (s.leaving == 0)) [
  | inl e ↦ rw e h
  | inr e ↦ rw e refl
]
step-known (user_set user) s h = refl

run-known : (es : List Event) (s : State) → s.is_loading ≡ false → (run es s).is_loading ≡ false
unfolding run
run-known [] s h = h
run-known (e ∷ es) s h = run-known es (step e s) (step-known e s h)

nobody : {n : ℕ} → 0 < n → (n == 0) ≡ true → ⊥
nobody positive e = ground arith

step-answered :
    (user : Option AuthUser) (s : State)
    → IsDue s
    → (step (refresh_settled user) s).is_loading ≡ false
unfolding step settled
step-answered user s due = elim (Bool-cases (s.refreshing == 0)) [
  | inl e ↦ elim (Bool-cases s.is_loading) [ inl l ↦ absurd (nobody (due l).0 e) | inr l ↦ rw e l ]
  | inr e ↦ rw e refl
]

-- The answer to the request for the user ends the loading for good, whether it holds a user or the
-- request has failed: in a run of any events, then the answer, then any events, the session is known.
pub run-answered :
    (es fs : List Event) (user : Option AuthUser)
    → (run fs (step (refresh_settled user) (run es initial))).is_loading ≡ false
run-answered es fs user =
    run-known fs (step (refresh_settled user) (run es initial))
      (step-answered user (run es initial) (run-initial-IsDue es))
