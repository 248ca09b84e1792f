-- ===== src/Runtime/Page/Laws.antt =====
-- The invariant of the runtime page, its buttons, and its cleared console.
use poolx.Common.{
  ◌≤◌, ◌-◌, Bool, true, false, List, [], ◌∷◌, Option, length, All, ◌≡◌, ◌≢◌, refl, ap, ◌∙◌, arith,
  nat_eq, take_last,
}
use poolx.Common.Unique.{Distinct}
use poolx.Capability.{KernelCapability}
use poolx.Runtime.{RuntimeStatus, RuntimeLogItem}
use poolx.Runtime.Merge.{seqs}
use poolx.Runtime.Merge.Laws.{
  unseen, merge_logs-take_last, length-merge_logs-le, merge_logs-Distinct,
}
use poolx.Runtime.Page.{
  State, initial, fetch_logs, supports, click_start, click_stop, click_reload, Event, query_loaded,
  poll_answered, start_logs_answered, clear_logs, step, poll, run,
}

pub record IsValid (s : State) : Type 0 where
  pub bounded : length s.logs ≤ 300
  pub distinct : Distinct (seqs s.logs)

-- The server is asked for 100 entries at a time, and repeats none in one answer.
abbrev pub IsAnswer : List RuntimeLogItem → Type 0
IsAnswer items = (length items ≤ 100) × Distinct (seqs items)

abbrev pub IsHonest : Event → Type 0
IsHonest (query_loaded items) = IsAnswer items
IsHonest (poll_answered items) = IsAnswer items
IsHonest (start_logs_answered items) = IsAnswer items
IsHonest _ = Unit

step-IsValid : (s : State) (e : Event) → IsHonest e → IsValid s → IsValid (step s e).0
unfolding step
step-IsValid s (poll_answered items) h v = ground (
  arith,
  length-merge_logs-le s.logs items,
  merge_logs-Distinct s.logs items v.bounded v.distinct h.1,
)
step-IsValid s e h v = ground arith

run-IsValid : (s : State) (es : List Event) → All IsHonest es → IsValid s → IsValid (run s es)
unfolding run
run-IsValid s [] h v = v
run-IsValid s (e ∷ es) (k, h) v = run-IsValid (step s e).0 es h (step-IsValid s e k v)

-- Whatever happens to the page, and however the answers of polls, of the first load and of a start
-- are interleaved with clicks, it shows at most 300 entries and none twice, if each answer of the
-- server holds at most 100 entries and none twice.
pub run-initial-IsValid : (es : List Event) → All IsHonest es → IsValid (run initial es)
run-initial-IsValid es h =
    run-IsValid initial es h (record { bounded = omega arith; distinct = tt })

-- At most one of the buttons for starting on the one hand and for stopping and reloading on the
-- other sends a request, and a start needs a kernel that supports it.
pub click_start_exclusive :
    (starting stopping reloading : Bool) (status : RuntimeStatus)
    (capability : Option KernelCapability) (s : State)
    → (click_start starting status capability s).1 ≢ []
    → ((click_stop stopping status s).1 ≡ [])
      × ((click_reload reloading status capability s).1 ≡ [])
      × (status.running ≡ false)
      × (supports (λ c. c.supports_start) capability ≡ true)
unfolding click_start click_stop click_reload
click_start_exclusive starting stopping reloading status capability s h = ground arith

unseen-nil : (items : List RuntimeLogItem) → unseen [] items ≡ items
unseen-nil [] = refl
unseen-nil (x ∷ xs) = ap (λ l. x ∷ l) (unseen-nil xs)

take_last_all : (xs : List RuntimeLogItem) → length xs ≤ 300 → take_last 300 xs ≡ xs
take_last_all xs h = let e : length xs - 300 ≡ 0 = omega arith in rw e refl

-- While the page refreshes itself, a cleared console does not stay clear: the next poll asks for
-- the entries from the start, and all that the server still holds, up to 300, is shown again.
pub clear_logs-poll :
    (s : State) (items : List RuntimeLogItem)
    → s.auto_refresh ≡ true
    → length items ≤ 300
    → (poll (step s clear_logs).0 ≡ fetch_logs 0 ∷ [])
      × ((step (step s clear_logs).0 (poll_answered items)).0.logs ≡ items)
unfolding step poll
clear_logs-poll s [] on bound = ground arith
clear_logs-poll s (x ∷ xs) on bound = (
  ground arith,
  merge_logs-take_last [] (x ∷ xs) (omega arith)
      ∙ (ap (take_last 300) (unseen-nil (x ∷ xs)) ∙ take_last_all (x ∷ xs) bound),
)
