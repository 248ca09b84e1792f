-- ===== src/Nodes/Page/Selection.antt =====
-- The selection of the node page as a set of nodes, whatever list keeps it.
use poolx.Common.{
  ℕ, Bool, true, false, not, ◌&&◌, List, [], ◌∷◌, String, map, if◌then◌else◌, is_empty, ◌==◌,
  nat_eq, ◌≡◌, refl, ap, ◌∙◌, arith, Bool-cases, inl, inr,
}
use poolx.Common.Unique.{contains, contains-toggle, contains-remove}
use poolx.Nodes.Page.{
  State, initial, Event, select_all, toggle_selection, clear_selection, node_deleted, nodes_deleted,
  search, reset, set_page_size, imported, step, run,
}

abbrev pub Selected : Type 0
Selected = ℕ → Bool

abbrev pub nobody : Selected
nobody = λ b. false

-- What an event does to the set: a box decides on its node, a whole page replaces the set, and
-- what lists other nodes, or removes the nodes, empties it.
unfoldable pub select : Event → Selected → Selected
select (toggle_selection id checked) chosen = λ b. if id == b then checked else chosen b
select (node_deleted id) chosen = λ b. not (id == b) && chosen b
select (select_all nodes) chosen =
    if is_empty nodes then chosen else (λ b. contains (map (λ n. n.id) nodes) b)
select clear_selection chosen = nobody
select (nodes_deleted n) chosen = nobody
select search chosen = nobody
select reset chosen = nobody
select (set_page_size n) chosen = nobody
select (imported new skipped) chosen = nobody
select _ chosen = chosen

unfoldable pub select_run : List Event → Selected → Selected
select_run [] chosen = chosen
select_run (e ∷ es) chosen = select_run es (select e chosen)

-- The set of a state.
abbrev pub selected_of : State → Selected
selected_of s = λ b. contains s.selected_ids b

contains-is_empty : (ids : List ℕ) (b : ℕ) → is_empty ids ≡ true → contains ids b ≡ false
contains-is_empty [] b e = refl
contains-is_empty (id ∷ ids) b e = absurd (ground (arith, e))

module _ (show : ℕ → String) where
  -- One event refines its effect on the set.
  step-select :
      (s : State) (e : Event) (chosen : Selected)
      → ((b : ℕ) → selected_of s b ≡ chosen b)
      → (b : ℕ) → selected_of (step show s e).0 b ≡ select e chosen b
  unfolding step select
  step-select s (toggle_selection id checked) chosen same b =
      contains-toggle s.selected_ids id b checked
      ∙ ap (λ c. if id == b then checked else c) (same b)
  step-select s (node_deleted id) chosen same b =
      contains-remove s.selected_ids id b ∙ ap (λ c. not (id == b) && c) (same b)
  step-select s (select_all nodes) chosen same b = elim (Bool-cases (is_empty nodes)) [
    | inl e ↦ rw e (same b)
    | inr e ↦ rw e refl
  ]
  step-select s clear_selection chosen same b = elim (Bool-cases (is_empty s.selected_ids)) [
    | inl e ↦ rw e (contains-is_empty s.selected_ids b e)
    | inr e ↦ rw e refl
  ]
  step-select s e chosen same b = ground (arith, same b)

  run-select_run :
      (es : List Event) (s : State) (chosen : Selected)
      → ((b : ℕ) → selected_of s b ≡ chosen b)
      → (b : ℕ) → selected_of (run show s es) b ≡ select_run es chosen b
  unfolding run select_run
  run-select_run [] s chosen same b = same b
  run-select_run (e ∷ es) s chosen same b =
      run-select_run es (step show s e).0 (select e chosen) (step-select s e chosen same) b

  -- The page implements a set of nodes: after any events, in any order, a node is selected exactly
  -- where it is in the set that starts empty, that a box changes at its node, that the button for
  -- the whole page replaces by the nodes listed, that a delete of a node leaves without it, and
  -- that a search, a reset, another page size, an import and the delete of the selected nodes empty.
  pub run-initial-select_run :
      (es : List Event) (b : ℕ)
      → contains (run show initial es).selected_ids b ≡ select_run es nobody b
  run-initial-select_run es b = run-select_run es initial nobody (λ c. refl) b
