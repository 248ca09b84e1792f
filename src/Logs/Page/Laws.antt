-- ===== src/Logs/Page/Laws.antt =====
-- The entries of the log page after any events, and what it asks for next.
use poolx.Common.{ℕ, ◌≤◌, Bool, List, [], ◌∷◌, Option, none, some, String, All, ◌≡◌, arith, nat_eq}
use poolx.Common.Text.{Text}
use poolx.Common.Unique.{Distinct}
use poolx.Logs.{AppLogItem}
use poolx.Logs.Merge.{ids}
use poolx.Logs.Merge.Laws.{IsSorted, merge_logs-ids, merge_logs-IsSorted}
use poolx.Logs.Page.{
  State, initial, Effect, get_logs, last_log_id, next_logs, poll, Event, query_loaded,
  poll_answered, refresh_answered, click_copy, click_download, filtered_logs, handle_copy,
  handle_download, step, run,
}

-- The entries shown are sorted by id, and none is shown twice.
pub record IsOrdered (s : State) : Type 0 where
  pub sorted : IsSorted s.logs
  pub distinct : Distinct (ids s.logs)

-- The data of the query is sorted by id and repeats no entry; the other answers are arbitrary.
abbrev pub IsHonest : Event → Type 0
IsHonest (query_loaded items) = IsSorted items × Distinct (ids items)
IsHonest _ = Unit

-- No entry has a greater id than the last one.
last_log_id-greatest :
    (logs : List AppLogItem) → IsSorted logs → All (λ item. item.id ≤ last_log_id logs) logs
unfolding last_log_id
last_log_id-greatest [] h = tt
last_log_id-greatest (x ∷ []) h = (omega arith, tt)
last_log_id-greatest (x ∷ y ∷ xs) h =
    let rest = last_log_id-greatest (y ∷ xs) h.1 in (omega (arith, h.0.0, rest.0), rest)

-- A request that is for the classification chosen, and for entries after all that are shown.
abbrev pub Resumes : State → Effect → Type 0
Resumes s (get_logs params) =
    (params.classification ≡ s.classification) × All (λ item. item.id ≤ params.after_id) s.logs
Resumes s _ = Unit

module _ (lower : Text → Text) (matches : AppLogItem → Text → Option Bool)
    (format : AppLogItem → Text) (show : ℕ → String) where
  copy-IsOrdered :
      (s : State) (items : Option (List AppLogItem))
      → IsOrdered s
      → IsOrdered (handle_copy lower matches format show s items).0
  unfolding handle_copy
  copy-IsOrdered s none v = v
  copy-IsOrdered s (some items) v = ground arith

  download-IsOrdered :
      (s : State) (items : Option (List AppLogItem))
      → IsOrdered s
      → IsOrdered (handle_download lower matches format show s items).0
  unfolding handle_download
  download-IsOrdered s none v = v
  download-IsOrdered s (some items) v = ground arith

  step-IsOrdered :
      (s : State) (e : Event)
      → IsHonest e
      → IsOrdered s
      → IsOrdered (step lower matches format show s e).0
  unfolding step
  step-IsOrdered s (query_loaded items) h v = record { sorted = h.0; distinct = h.1 }
  step-IsOrdered s (poll_answered items) h v =
      ground (arith, merge_logs-ids s.logs items, merge_logs-IsSorted s.logs items)
  step-IsOrdered s (refresh_answered items) h v =
      ground (arith, merge_logs-ids s.logs items, merge_logs-IsSorted s.logs items)
  step-IsOrdered s click_copy h v = copy-IsOrdered s (filtered_logs lower matches format show s) v
  step-IsOrdered s click_download h v =
      download-IsOrdered s (filtered_logs lower matches format show s) v
  step-IsOrdered s e h v = ground arith

  run-IsOrdered :
      (s : State) (es : List Event)
      → All IsHonest es
      → IsOrdered s
      → IsOrdered (run lower matches format show s es)
  unfolding run
  run-IsOrdered s [] h v = v
  run-IsOrdered s (e ∷ es) (k, h) v =
      run-IsOrdered (step lower matches format show s e).0 es h (step-IsOrdered s e k v)

  poll-Resumes : (s : State) → IsSorted s.logs → All (Resumes s) (poll s)
  unfolding poll next_logs
  poll-Resumes s sorted = ground (arith, last_log_id-greatest s.logs)

  -- If every load of the query, the first one and those after a change of the classification, is
  -- sorted by id and repeats no entry, then whatever else happens to the page, and whatever the timer
  -- and the refresh button are answered: its entries are sorted by id and none is shown twice, and
  -- its timer asks for entries of the classification chosen whose ids come after all that are shown.
  pub run-initial-IsOrdered :
      (es : List Event)
      → All IsHonest es
      → let s = run lower matches format show initial es in IsOrdered s × All (Resumes s) (poll s)
  run-initial-IsOrdered es h =
      let v = run-IsOrdered initial es h (record { sorted = tt; distinct = tt }) in
      (v, poll-Resumes (run lower matches format show initial es) v.sorted)
