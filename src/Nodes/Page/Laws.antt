-- ===== src/Nodes/Page/Laws.antt =====
-- The selection of the node page, what it may delete, and what a search asks for.
use poolx.Common.{
  inl, inr, Bool-cases, ◌||◌, ℕ, Bool, true, false, not, ◌&&◌, List, [], ◌∷◌, Option, none, some,
  map, if◌then◌else◌, nat_eq, ◌==◌, All, ◌≡◌, ◌≢◌, refl, ap, ◌∙◌, arith,
}
use poolx.Common.Text.{Text, trim, trim_idempotent}
use poolx.Common.Unique.{
  contains, Distinct, toggle-Distinct, Distinct-remove, contains-toggle, contains-remove,
}
use poolx.Common.{String}
use poolx.Nodes.Request.{list_query, lookup_param, trimmed}
use poolx.Nodes.Request.Laws.{as_text, keyword-param}
use poolx.Nodes.Page.{
  State, initial, Effect, delete_node, delete_nodes, list_params, Event, select_all,
  toggle_selection, node_deleted, delete_one, delete_selected, search, step, run,
}

-- The server lists no node twice.
abbrev pub IsHonest : Event → Type 0
IsHonest (select_all nodes) = Distinct (map (λ n. n.id) nodes)
IsHonest _ = Unit

trimmed-trim : (k : Text) → trimmed (some (trim k)) ≡ trimmed (some k)
trimmed-trim k = rw trim_idempotent refl

module _ (show : ℕ → String) where
  step-Distinct :
      (s : State) (e : Event)
      → IsHonest e
      → Distinct s.selected_ids
      → Distinct (step show s e).0.selected_ids
  unfolding step
  step-Distinct s (select_all nodes) h d = ground arith
  step-Distinct s (toggle_selection id checked) h d = toggle-Distinct s.selected_ids id checked d
  step-Distinct s (node_deleted id) h d = Distinct-remove s.selected_ids id d
  step-Distinct s e h d = ground arith

  run-Distinct :
      (s : State) (es : List Event)
      → All IsHonest es
      → Distinct s.selected_ids
      → Distinct (run show s es).selected_ids
  unfolding run
  run-Distinct s [] h d = d
  run-Distinct s (e ∷ es) (k, h) d = run-Distinct (step show s e).0 es h (step-Distinct s e k d)

  -- Whatever happens to the page, no node is selected twice, if the server lists none twice.
  pub run-initial-Distinct :
      (es : List Event) → All IsHonest es → Distinct (run show initial es).selected_ids
  run-initial-Distinct es h = run-Distinct initial es h tt

  -- What lets an event send a request that deletes.
  abbrev pub Asked : State → Event → Effect → Type 0
  Asked s e (delete_node id) = (deleting : Option ℕ) × (e ≡ delete_one deleting id true)
  Asked s e (delete_nodes ids) =
      (e ≡ delete_selected false true) × (ids ≡ s.selected_ids) × (ids ≢ [])
  Asked s e _ = Unit

  -- A request that deletes is sent only by a delete button whose question was answered yes: for
  -- the node of the card, or for exactly the nodes selected, of which there is one at least.
  pub step-Asked : (s : State) (e : Event) → All (Asked s e) (step show s e).1
  unfolding step
  step-Asked s (delete_one deleting id true) =
      elim (Bool-cases (contains (elim deleting [ none ↦ [] | some d ↦ d ∷ [] ]) id || not true)) [
        | inl stop ↦ rw stop tt
        | inr go ↦ rw go ((deleting, refl), tt)
      ]
  step-Asked s (delete_one deleting id false) = ground arith
  step-Asked s (delete_selected pending confirmed) = ground arith
  step-Asked s e = ground arith

  -- A click on a box decides whether its node is selected and leaves the others as they were, and
  -- a node that was deleted is no longer selected.
  pub contains-step :
      (s : State) (id b : ℕ) (checked : Bool)
      → (contains (step show s (toggle_selection id checked)).0.selected_ids b
          ≡ (if id == b then checked else contains s.selected_ids b))
        × (contains (step show s (node_deleted id)).0.selected_ids b
            ≡ (not (id == b) && contains s.selected_ids b))
  unfolding step
  contains-step s id b checked =
      (contains-toggle s.selected_ids id b checked, contains-remove s.selected_ids id b)

  -- After a search the list is asked for from its first page, nothing is selected, and the query
  -- names the trimmed input as its keyword, or no keyword where the input is blank.
  pub step-search :
      (s : State)
      → let t = (step show s search).0 in
        (t.page ≡ 0)
        × (t.selected_ids ≡ [])
        × (lookup_param "keyword" (list_query (list_params t))
            ≡ as_text (trimmed (some s.keyword_input)))
  unfolding step list_params
  step-search s = (
    refl,
    refl,
    keyword-param (list_params (step show s search).0) ∙ ap as_text (trimmed-trim s.keyword_input),
  )
