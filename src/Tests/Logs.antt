-- ===== src/Tests/Logs.antt =====
-- The log page at concrete entries.
use poolx.Common.{
  String, All, arith, ℕ, true, false, List, [], ◌∷◌, ◌++◌, none, ◌≡◌, ◌↔◌, ◌⊎◌, refl, is_empty,
  nat_eq,
}
use poolx.Common.Text.{Text, units, trim}
use mathlib.Core.List.{Perm}
use poolx.Logs.{AppLogItem}
use poolx.Logs.Merge.{ids, merge_logs}
use poolx.Logs.Merge.Laws.{fresh, IsSorted, merge_logs-IsSorted}
use poolx.Logs.Page.{
  State, initial, Event, query_loaded, poll_answered, set_search, click_copy, toggle_pause, poll,
  run,
}
use poolx.Logs.Page.Laws.{IsOrdered, Resumes, run-initial-IsOrdered}
use poolx.Logs.Display.{is_inherited, matches_log_keyword}
use poolx.Logs.Display.Laws.{matches_log_keyword-none_iff}

abbrev entry : ℕ → AppLogItem
entry n = record {
  id = n;
  classification = units "constructor";
  level = units "info";
  message = units "started";
  created_at = units "2025-01-01T00:00:00Z";
}

abbrev shown : List AppLogItem
shown = entry 1 ∷ entry 4 ∷ []

-- An answer that repeats an entry shown and one of its own.
abbrev answer : List AppLogItem
answer = entry 4 ∷ entry 2 ∷ entry 2 ∷ []

abbrev same : Text → Text
same t = t

merge_logs-IsSorted_example :
    IsSorted (merge_logs shown answer)
    × Perm (merge_logs shown answer) (shown ++ fresh (ids shown) answer)
merge_logs-IsSorted_example = merge_logs-IsSorted shown answer refl

matches_log_keyword-none_iff_example :
    (matches_log_keyword same same same same (entry 1) (units "start") ≡ none) ↔ (
      (is_empty (trim (units "start")) ≡ false)
      × ((is_inherited (units "constructor") ≡ true) ⊎ (is_inherited (units "info") ≡ true)))
matches_log_keyword-none_iff_example =
    matches_log_keyword-none_iff same same same same (entry 1) (units "start")

abbrev as_word : ℕ → String
as_word n = "n"

abbrev message_of_entry : AppLogItem → Text
message_of_entry item = item.message

abbrev events : List Event
events =
    query_loaded shown
    ∷ poll_answered answer
    ∷ set_search (units "start")
    ∷ click_copy
    ∷ toggle_pause
    ∷ []

abbrev ended : State
ended = run same (matches_log_keyword same same same same) message_of_entry as_word initial events

run-initial-IsOrdered_example : IsOrdered ended × All (Resumes ended) (poll ended)
run-initial-IsOrdered_example =
    run-initial-IsOrdered same (matches_log_keyword same same same same) message_of_entry as_word
      events ((((omega arith, tt), (tt, tt)), (refl, (refl, tt))), (tt, (tt, (tt, (tt, tt)))))
