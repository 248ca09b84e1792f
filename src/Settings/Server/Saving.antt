-- ===== src/Settings/Server/Saving.antt =====
-- A save of the settings page and the server together: the button, the requests behind it, what the
-- server keeps, and the form that is loaded from its answer.
use poolx.Common.{
  ℕ, suc, ◌+◌, List, [], ◌∷◌, ◌++◌, none, some, String, map, length, true, string_eq, ◌≡◌, refl, ap,
  sym, ◌∙◌, arith, All,
}
use poolx.Common.Text.{Text, includes, starts_with}
use poolx.Common.Unique.{Distinct}
use poolx.Settings.Fields.{SystemFields}
use poolx.Settings.Options.{get_entry}
use poolx.Settings.Entries.{Entries, check_clash, clash_entries, passed}
use poolx.Common.Int.{parse_int}
use poolx.Settings.Entries.Laws.{check_timeout-passed, keys}
use poolx.Settings.Entries.RoundTrip.{Stores, check_clash-reloaded}
use poolx.Settings.Actions.{
  Effect, Running, State, invalidate_options, invalidate_status, option_saved, run_busy_action,
  run_progress, run_save, running_at, said, save_from, without,
}
use poolx.Settings.Actions.Laws.{succeed_times, succeed_times-save, update_of}
use poolx.Settings.Page.{View}
use poolx.Settings.Page.Step.{options_loaded, press_clash, save_clash}
use poolx.Settings.Server.{OptionMap, handle, is_listed, list_editable_options, serve}
use poolx.Settings.Server.Laws.{IsMap, get_entry-list, serve-append, serve-entries}

running_at-last : (rs : List Running) (r : Running) → running_at (length rs) (rs ++ r ∷ []) ≡ some r
running_at-last [] r = refl
running_at-last (x ∷ rs) r = running_at-last rs r

without-last : (rs : List Running) (r : Running) → without (length rs) (rs ++ r ∷ []) ≡ rs
without-last [] r = refl
without-last (x ∷ rs) r = ap (x ∷◌) (without-last rs r)

-- A button was pressed, and a number of requests of the action that it started succeed.
abbrev pub answered : ℕ → State → State × List Effect → State × List Effect
answered n s (t, sent) = let (u, later) = succeed_times n (length s.running) t in (u, sent ++ later)

-- The end of a save of some entries.
abbrev pub saved : String → Entries → State → State × List Effect
saved message entries s = (
  record (said message s) { busy_key = none },
  map update_of entries ++ invalidate_options ∷ invalidate_status ∷ [],
)

pub run_save-saved :
    (key message : String) (e : String × Text) (rest : Entries) (s : State)
    → answered (length (e ∷ rest) + 2) s (run_save key (passed (e ∷ rest)) message s)
      ≡ saved message (e ∷ rest) s
unfolding run_save run_progress save_from run_busy_action
run_save-saved key message e rest s =
    let r : Running = record { key = key; wait = option_saved rest message } in
    let count : suc (length rest) + 2 ≡ length rest + 3 = omega arith in
    rw
      (
        count,
        succeed_times-save (length s.running) key message rest
            (run_busy_action key (update_of e) (option_saved rest message) s).0
            (running_at-last s.running r),
        without-last s.running r,
      )
      refl

-- The answer of the server in some order: a map with the same entries.
abbrev pub SameMap : OptionMap → OptionMap → Type 0
SameMap answer options = (k : String) → get_entry k answer ≡ get_entry k options

-- The server after a save of some entries.
serve-saved :
    (message : String) (entries : Entries) (s : State) (options : OptionMap)
    → serve options (saved message entries s).1 ≡ serve options (map update_of entries)
unfolding serve handle
serve-saved message entries s options =
    serve-append (map update_of entries) (invalidate_options ∷ invalidate_status ∷ []) options

pub serve-answered :
    (n : ℕ) (message : String) (entries : Entries) (s : State) (pressed : State × List Effect)
    → (options : OptionMap) → answered n s pressed ≡ saved message entries s
    → serve options (answered n s pressed).1 ≡ serve options (map update_of entries)
serve-answered n message entries s pressed options e =
    ap (λ r. serve options r.1) e ∙ serve-saved message entries s options

-- What was stored and may be shown is in the answer.
stored-Stores :
    (entries : Entries) (answer options : OptionMap)
    → IsMap answer
    → SameMap answer options
    → All (λ e. is_listed e.0 ≡ true) entries
    → All (λ e. get_entry e.0 options ≡ some e.1) entries
    → All (Stores (list_editable_options answer)) entries
stored-Stores [] answer options m same shown stored = tt
stored-Stores ((key, value) ∷ entries) answer options m same (l, ls) (h, hs) = (
  get_entry-list key answer m ∙ rw (l, same key) h,
  stored-Stores entries answer options m same ls hs,
)

-- The entries of the kernel have different and all of them may be shown.
clash_entries-Distinct : (s : SystemFields) (n : ℕ) → Distinct (keys (clash_entries s n))
unfolding clash_entries
clash_entries-Distinct s n = (refl, (refl, (refl, (refl, (refl, (refl, (refl, (refl, tt))))))))

clash_entries_listed :
    (s : SystemFields) (n : ℕ) → All (λ e. is_listed e.0 ≡ true) (clash_entries s n)
unfolding clash_entries is_listed includes starts_with
clash_entries_listed s n = (refl, (refl, (refl, (refl, (refl, (refl, (refl, (refl, tt))))))))

-- What passes the check are the entries of the kernel.
check_clash_entries :
    (s : SystemFields) (sent : Entries)
    → check_clash s ≡ passed sent
    → (n : ℕ) × (sent ≡ clash_entries s n)
unfolding check_clash
check_clash_entries s sent h =
    let (n, _, _, _, _, eq) =
      check_timeout-passed s (parse_int s.node_test_default_timeout_ms) sent h in
    (n, eq)

press_clash-saved :
    (v : View) (s : State) (sent : Entries)
    → check_clash s.system_fields ≡ passed sent
    → answered (length sent + 2) s (press_clash v save_clash s) ≡ saved "Clash 设置已保存。" sent s
unfolding press_clash clash_entries
press_clash-saved v s sent h =
    let (n, eq) = check_clash_entries s.system_fields sent h in
    rw (h, eq) (run_save-saved "clash-settings" "Clash 设置已保存。" _ _ s)

clash-Stores :
    (s : SystemFields) (sent : Entries) (options answer : OptionMap)
    → check_clash s ≡ passed sent
    → IsMap answer
    → SameMap answer (serve options (map update_of sent))
    → All (Stores (list_editable_options answer)) sent
clash-Stores s sent options answer h m same =
    let (n, eq) = check_clash_entries s sent h in
    stored-Stores sent answer (serve options (map update_of sent)) m same
      (rw eq (clash_entries_listed s n))
      (serve-entries sent options (rw eq (clash_entries-Distinct s n)))

pub press_clash-reloaded :
    (v : View) (s t : State) (effects : List Effect) (sent : Entries) (options answer : OptionMap)
    → check_clash s.system_fields ≡ passed sent
    → answered (length sent + 2) s (press_clash v save_clash s) ≡ (t, effects)
    → IsMap answer
    → SameMap answer (serve options effects)
    → (t ≡ record (said "Clash 设置已保存。" s) { busy_key = none })
      × (check_clash (options_loaded v (list_editable_options answer) t).system_fields
          ≡ passed sent)
unfolding options_loaded
press_clash-reloaded v s t effects sent options answer h ends m same =
    let end : (t, effects) ≡ saved "Clash 设置已保存。" sent s =
      sym ends ∙ press_clash-saved v s sent h in
    let kept : serve options effects ≡ serve options (map update_of sent) =
      ap (λ e. serve options e.1) end ∙ serve-saved "Clash 设置已保存。" sent s options in
    (
      ap (λ e. e.0) end,
      check_clash-reloaded s.system_fields sent (list_editable_options answer) _ h (
          clash-Stores s.system_fields sent options answer h m
            (λ k. same k ∙ ap (get_entry k) kept)),
    )
