-- ===== src/Runtime/Screen/Laws.antt =====
-- The screen of the runtime page against its handlers.
use poolx.Common.{
  ℕ, suc, ◌≤◌, Bool, not, List, [], ◌∷◌, some, String, All, length, map, is_empty, ◌≡◌, refl, ap,
  arith, Option-cases, inl, inr, nat_eq, sym,
}
use poolx.Common.Text.{Text}
use poolx.Common.Unique.{Distinct}
use poolx.Runtime.{RuntimeStatus, RuntimeLogItem}
use poolx.Runtime.Merge.{seqs}
use poolx.Runtime.Page.{
  State, Event, Effect, initial, run, click_start, click_reload, click_stop, click_open_panel,
  get_log_level_class,
}
use poolx.Runtime.Page.Laws.{IsHonest, IsValid, run-initial-IsValid}
use poolx.Runtime.Screen.{Console, View, Panel, shown, header, console, panel, screen, Row, cards}

-- A button that is enabled sends a request when it is clicked, and a disabled one does not.
abbrev pub Agrees : Bool → State × List Effect → Type 0
Agrees enabled clicked = enabled ≡ not (is_empty clicked.1)

header-Agrees :
    (v : View) (status : RuntimeStatus) (s : State)
    → let h = header v status s in
      Agrees h.start.enabled (click_start v.start_pending status v.capability s)
      × Agrees h.reload.enabled (click_reload v.reload_pending status v.capability s)
      × Agrees h.stop.enabled (click_stop v.stop_pending status s)
      × Agrees h.open_panel.enabled (click_open_panel status s)
unfolding header click_start click_reload click_stop click_open_panel
header-Agrees v status s = (ground arith, ground arith, ground arith, ground arith)

abbrev rows_of : (RuntimeLogItem → String) → List RuntimeLogItem → List Row
rows_of class logs = map (λ item. record { entry = item; level_class = class item }) logs

abbrev pub row_seq : Row → ℕ
row_seq r = r.entry.seq

rows-seqs :
    (class : RuntimeLogItem → String) (logs : List RuntimeLogItem)
    → map row_seq (rows_of class logs) ≡ seqs logs
rows-seqs class [] = refl
rows-seqs class (x ∷ xs) = ap (x.seq ∷◌) (rows-seqs class xs)

length-rows :
    (class : RuntimeLogItem → String) (logs : List RuntimeLogItem)
    → length (rows_of class logs) ≡ length logs
length-rows class [] = refl
length-rows class (x ∷ xs) = ap suc (length-rows class xs)

screen-shown :
    (lower : Text → Text) (format_date : String → String) (v : View) (s : State) (p : Panel)
    → screen lower format_date v s ≡ shown p
    → (status : RuntimeStatus) × (v.status ≡ some status) × (p ≡ panel lower format_date v s status)
unfolding screen
screen-shown lower format_date v s p h = elim (Option-cases v.status) [
  | inl e ↦ absurd (ground (arith, e, h))
  | inr (status, e) ↦ (status, e, ground (arith, e, h))
]

-- The console has few rows, and different ones.
pub record IsReadable (c : Console) : Type 0 where
  pub counted : c.count ≡ length c.rows
  pub few : c.count ≤ 300
  pub different : Distinct (map row_seq c.rows)

console-IsReadable :
    (lower : Text → Text) (v : View) (s : State) → IsValid s → IsReadable (console lower v s)
unfolding console
console-IsReadable lower v s valid = record {
  counted = sym (length-rows (λ item. get_log_level_class lower item.level) s.logs);
  few = valid.bounded;
  different = rw (rows-seqs (λ item. get_log_level_class lower item.level) s.logs) valid.distinct;
}

pub screen-run :
    (lower : Text → Text) (format_date : String → String) (v : View) (es : List Event) (p : Panel)
    → All IsHonest es
    → screen lower format_date v (run initial es) ≡ shown p
    → (status : RuntimeStatus) × (v.status ≡ some status)
      × (p.summary ≡ cards status)
      × (p.listeners ≡ status.listeners)
      × Agrees p.buttons.start.enabled
          (click_start v.start_pending status v.capability (run initial es))
      × Agrees p.buttons.reload.enabled
          (click_reload v.reload_pending status v.capability (run initial es))
      × Agrees p.buttons.stop.enabled (click_stop v.stop_pending status (run initial es))
      × Agrees p.buttons.open_panel.enabled (click_open_panel status (run initial es))
      × IsReadable p.log
unfolding panel
screen-run lower format_date v es p honest h =
    let (status, e, is_panel) = screen-shown lower format_date v (run initial es) p h in
    let (start, reload, stop, open_panel) = header-Agrees v status (run initial es) in
    (
      status,
      e,
      rw is_panel refl,
      rw is_panel refl,
      rw is_panel start,
      rw is_panel reload,
      rw is_panel stop,
      rw is_panel open_panel,
      rw is_panel (console-IsReadable lower v (run initial es) (run-initial-IsValid es honest)),
    )
