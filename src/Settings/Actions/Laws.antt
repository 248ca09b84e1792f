-- ===== src/Settings/Actions/Laws.antt =====
-- What the actions behind the buttons of the settings page send, and how they end.
use poolx.Common.{
  ℕ, zero, suc, ◌+◌, ◌≤◌, List, [], ◌∷◌, ◌++◌, Option, none, some, String, map, length, take, drop,
  ◌≡◌, refl, ap, arith,
}
use poolx.Common.Text.{Text}
use poolx.Ui.{Thrown, message_of}
use poolx.Settings.Entries.{Entries}
use poolx.Settings.Actions.{
  Effect, Running, State, Wait, after_answer, fail, fail_with, go_on, invalidate_options,
  invalidate_status, option_saved, options_invalidated, progress, running_at, said, save_from,
  status_invalidated, succeed, succeed_with, update_option, warned, with_wait, without,
}

running_at-with_wait :
    (i : ℕ) (w : Wait) (r : Running) (rs : List Running)
    → running_at i rs ≡ some r
    → running_at i (with_wait i w rs) ≡ some (record { key = r.key; wait = w })
running_at-with_wait i w r [] h = cc
running_at-with_wait zero w r (x ∷ rs) h = ground (arith, h)
running_at-with_wait (suc i) w r (x ∷ rs) h = running_at-with_wait i w r rs h

with_wait_twice :
    (i : ℕ) (w u : Wait) (rs : List Running) → with_wait i w (with_wait i u rs) ≡ with_wait i w rs
with_wait_twice i w u [] = refl
with_wait_twice zero w u (x ∷ rs) = refl
with_wait_twice (suc i) w u (x ∷ rs) = ap (x ∷◌) (with_wait_twice i w u rs)

without-with_wait :
    (i : ℕ) (u : Wait) (rs : List Running) → without i (with_wait i u rs) ≡ without i rs
without-with_wait i u [] = refl
without-with_wait zero u (x ∷ rs) = refl
without-with_wait (suc i) u (x ∷ rs) = ap (x ∷◌) (without-with_wait i u rs)

-- The request of the action at a position succeeds a number of times.
unfoldable pub succeed_times : ℕ → ℕ → State → State × List Effect
succeed_times zero i s = (s, [])
succeed_times (suc n) i s =
    let (t, sent) = succeed i s in let (u, later) = succeed_times n i t in (u, sent ++ later)

abbrev pub update_of : String × Text → Effect
update_of entry = update_option entry.0 entry.1

with_wait-same :
    (i : ℕ) (r : Running) (rs : List Running)
    → running_at i rs ≡ some r
    → with_wait i r.wait rs ≡ rs
with_wait-same i r [] h = refl
with_wait-same zero r (x ∷ rs) h = let e : x ≡ r = ground (arith, h) in rw e refl
with_wait-same (suc i) r (x ∷ rs) h = ap (x ∷◌) (with_wait-same i r rs h)

abbrev awaiting : String → Wait → Option Running
awaiting key w = some (record { key = key; wait = w })

abbrev pub waits : ℕ → Wait → State → State
waits i w s = record s { running = with_wait i w s.running }

-- The end of an action.
abbrev pub ended : ℕ → State → State
ended i s = record s { busy_key = none; running = without i s.running }

succeed-awaiting :
    (i : ℕ) (key : String) (w : Wait) (s : State)
    → running_at i s.running ≡ awaiting key w
    → succeed i s ≡ go_on i (progress w) (after_answer w s)
unfolding succeed succeed_with
succeed-awaiting i key w s h = rw h refl

awaiting-waits :
    (i : ℕ) (key : String) (w u : Wait) (s : State)
    → running_at i s.running ≡ awaiting key w
    → running_at i (waits i u s).running ≡ awaiting key u
awaiting-waits i key w u s h = running_at-with_wait i u (record { key = key; wait = w }) s.running h

-- The last two answers of a save.
end_of_save :
    (i : ℕ) (key message : String) (s : State)
    → running_at i s.running ≡ awaiting key (status_invalidated message)
    → succeed i s ≡ (ended i (said message s), [])
unfolding go_on progress after_answer
end_of_save i key message s h = succeed-awaiting i key (status_invalidated message) s h

next_of_save :
    (i : ℕ) (key message : String) (s : State)
    → running_at i s.running ≡ awaiting key (options_invalidated message)
    → succeed i s ≡ (waits i (status_invalidated message) s, invalidate_status ∷ [])
unfolding go_on progress after_answer
next_of_save i key message s h = succeed-awaiting i key (options_invalidated message) s h

last_of_save :
    (i : ℕ) (key message : String) (s : State)
    → running_at i s.running ≡ awaiting key (option_saved [] message)
    → succeed i s ≡ (waits i (options_invalidated message) s, invalidate_options ∷ [])
unfolding go_on progress after_answer save_from
last_of_save i key message s h = succeed-awaiting i key (option_saved [] message) s h

entry_of_save :
    (i : ℕ) (key message : String) (e : String × Text) (rest : Entries) (s : State)
    → running_at i s.running ≡ awaiting key (option_saved (e ∷ rest) message)
    → succeed i s ≡ (waits i (option_saved rest message) s, update_of e ∷ [])
unfolding go_on progress after_answer save_from
entry_of_save i key message e rest s h =
    succeed-awaiting i key (option_saved (e ∷ rest) message) s h

ended-waits : (i : ℕ) (w : Wait) (s : State) → ended i (waits i w s) ≡ ended i s
ended-waits i w s = rw (without-with_wait i w s.running) refl

waits_twice : (i : ℕ) (w u : Wait) (s : State) → waits i w (waits i u s) ≡ waits i w s
waits_twice i w u s = rw (with_wait_twice i w u s.running) refl

-- A save ends: when the requests behind it succeed one after the other, the page sends the entries
-- that are left in their order, then asks for the options and the public status again, and after
-- as many answers as there are entries left, and three, the action has left the list, no action is
-- busy, and the feedback is the message of success.
pub succeed_times-save :
    (i : ℕ) (key message : String) (rest : Entries) (s : State)
    → running_at i s.running ≡ awaiting key (option_saved rest message)
    → succeed_times (length rest + 3) i s ≡ (
      ended i (said message s),
      map update_of rest ++ invalidate_options ∷ invalidate_status ∷ [],
    )
unfolding succeed_times
succeed_times-save i key message [] s h =
    let a = awaiting-waits i key (option_saved [] message) (options_invalidated message) s h in
    let b =
      awaiting-waits i key (options_invalidated message) (status_invalidated message)
        (waits i (options_invalidated message) s) a in
    rw
      (
        last_of_save i key message s h,
        next_of_save i key message (waits i (options_invalidated message) s) a,
        end_of_save i key message
            (waits i (status_invalidated message) (waits i (options_invalidated message) s)) b,
      )
      (rw
        (
          without-with_wait i (status_invalidated message)
              (with_wait i (options_invalidated message) s.running),
          without-with_wait i (options_invalidated message) s.running,
        )
        refl)
succeed_times-save i key message (e ∷ rest) s h =
    let count : suc (length rest) + 3 ≡ suc (length rest + 3) = omega arith in
    rw
      (
        count,
        entry_of_save i key message e rest s h,
        succeed_times-save i key message rest (waits i (option_saved rest message) s) (
            awaiting-waits i key (option_saved (e ∷ rest) message) (option_saved rest message) s h),
        without-with_wait i (option_saved rest message) s.running,
      )
      refl

-- The answers so far: the first entries were sent, and nothing else has changed.
succeed_times-prefix :
    (n i : ℕ) (key message : String) (rest : Entries) (s : State)
    → n ≤ length rest
    → running_at i s.running ≡ awaiting key (option_saved rest message)
    → succeed_times n i s
      ≡ (waits i (option_saved (drop n rest) message) s, map update_of (take n rest))
unfolding succeed_times
succeed_times-prefix zero i key message rest s le h =
    rw (with_wait-same i (record { key = key; wait = option_saved rest message }) s.running h) refl
succeed_times-prefix (suc n) i key message [] s le h = absurd (omega arith)
succeed_times-prefix (suc n) i key message (e ∷ rest) s le h =
    rw
      (
        entry_of_save i key message e rest s h,
        succeed_times-prefix n i key message rest (waits i (option_saved rest message) s)
            (omega arith)
            (awaiting-waits i key (option_saved (e ∷ rest) message) (option_saved rest message) s
              h),
        with_wait_twice i (option_saved (drop n rest) message) (option_saved rest message)
            s.running,
      )
      refl

-- A save that fails is not undone: when some requests of a save have succeeded and the next one
-- fails, as many of the entries that were left were sent as requests have succeeded, the first ones
-- in their order; the failure sends nothing, the feedback is the error, the action has left the
-- list, no action is busy, and nothing else of the page has changed.
pub fail-save :
    (n i : ℕ) (key message : String) (rest : Entries) (error : Thrown) (s : State)
    → n ≤ length rest
    → running_at i s.running ≡ awaiting key (option_saved rest message)
    → ((succeed_times n i s).1 ≡ map update_of (take n rest))
      × (fail i error (succeed_times n i s).0
          ≡ (ended i (warned (message_of "请求失败，请稍后重试。" error) s), []))
unfolding fail fail_with
fail-save n i key message rest error s le h =
    rw
      (
        succeed_times-prefix n i key message rest s le h,
        awaiting-waits i key (option_saved rest message) (option_saved (drop n rest) message) s h,
        without-with_wait i (option_saved (drop n rest) message) s.running,
      )
      (refl, refl)
