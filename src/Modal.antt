-- ===== src/Modal.antt =====
-- server/web/components/ui/app-modal.tsx: the effect of a dialog on the document, and its clean-up.
-- A callback `onClose` is a number, its identity; so is a listener that an effect adds.
pub mod Laws
use poolx.Common.{
  ℕ, suc, Bool, true, false, not, ◌&&◌, List, [], ◌∷◌, ◌++◌, Option, none, some, map, filter,
  if◌then◌else◌, ◌==◌, nat_eq,
}
use poolx.Common.Text.{Text, units}

-- `document.body.style.overflow`, and the listeners of keys, each with the callback that it calls at
-- an Escape; `next` is the identity of the next listener.
pub record Document : Type 0 where
  pub overflow : Text
  pub listeners : List (ℕ × ℕ)
  pub next : ℕ

-- The dialog: the last `isOpen` and `onClose` that its effect has seen, and of an effect that is not
-- cleaned up yet its `previousOverflow` and its listener.
pub record State : Type 0 where
  pub document : Document
  pub deps : Option (Bool × ℕ)
  pub active : Option (Text × ℕ)

unfoldable pub set_up : ℕ → State → State
set_up on_close s =
    let d = s.document in
    record s {
      document = record {
        overflow = units "hidden";
        listeners = d.listeners ++ (d.next, on_close) ∷ [];
        next = suc d.next;
      };
      active = some (d.overflow, d.next);
    }

unfoldable pub clean_up : State → State
clean_up s = elim s.active [
  | none ↦ s
  | some (previous, id) ↦ record s {
    document = record {
      overflow = previous;
      listeners = filter (λ l. not (l.0 == id)) s.document.listeners;
      next = s.document.next;
    };
    active = none;
  }
]

abbrev bool_eq : Bool → Bool → Bool
bool_eq true b = b
bool_eq false b = not b

abbrev pub same_deps : Option (Bool × ℕ) → Bool → ℕ → Bool
same_deps none is_open on_close = false
same_deps (some (o, c)) is_open on_close = bool_eq o is_open && c == on_close

pub data Event : Type 0 where
  -- The dialog is rendered with these properties, or taken away.
  rendered : (is_open : Bool) → (on_close : ℕ) → Event
  unmounted : Event

-- The effect runs where its dependencies have changed, after the clean-up of the one before.
unfoldable pub step : State → Event → State
step s (rendered is_open on_close) =
    let clean = clean_up s in
    let next = if is_open then set_up on_close clean else clean in
    if same_deps s.deps is_open on_close then s else record next { deps = some (is_open, on_close) }
step s unmounted = record (clean_up s) { deps = none }

unfoldable pub run : State → List Event → State
run s [] = s
run s (e ∷ es) = run (step s e) es

-- A dialog that is not rendered yet.
abbrev pub mount : Document → State
mount d = record { document = d; deps = none; active = none }

-- The callbacks that a press of Escape calls, in the order of the listeners.
abbrev pub press_escape : Document → List ℕ
press_escape d = map (λ l. l.1) d.listeners
