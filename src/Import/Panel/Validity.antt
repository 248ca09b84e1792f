-- ===== src/Import/Panel/Validity.antt =====
-- What holds of the import panel after any events.
use poolx.Common.{
  ℕ, zero, suc, Bool, true, List, [], ◌∷◌, Option, none, some, String, filter, is_empty, string_eq,
  All, ◌≡◌, refl, arith, Bool-cases, inl, inr,
}
use poolx.Common.Text.{Text}
use poolx.Common.Unique.{contains, contains-toggle, Distinct, toggle-Distinct}
use poolx.Import.{ParsedNodePreview, SourceParseResult, SourceImportResult, is_importable}
use poolx.Import.Origin.{Url}
use poolx.Import.Panel.{
  State, Event, initial, importable_fingerprints, node_at, step, run, toggle_node, mark_imported,
  remove_previews, parse_failed, clear_selection, clear, parsed, click_box, remove_selected,
  imported, select_importable,
}

-- Every selected node can be imported and stands in the preview, none is selected twice, and
-- nothing is shown before something was parsed.
pub record IsValid {File : Type 0} (s : State File) : Type 0 where
  pub within :
      (f : String)
      → contains s.selected_fingerprints f ≡ true
      → contains (importable_fingerprints s.preview_nodes) f ≡ true
  pub distinct : Distinct s.selected_fingerprints
  pub known : Distinct (importable_fingerprints s.preview_nodes)
  pub parsed_first : s.parse_result ≡ none → s.preview_nodes ≡ []

-- The server finds all repetitions: no two nodes that it gives for importable are the same.
abbrev pub IsHonest : {File : Type 0} → Event File → Type 0
IsHonest (parsed result) = Distinct (importable_fingerprints result.nodes)
IsHonest _ = Unit

node_at-importable :
    (n : ℕ) (nodes : List ParsedNodePreview) (node : ParsedNodePreview)
    → node_at n nodes ≡ some node
    → is_importable node ≡ true
    → contains (importable_fingerprints nodes) node.fingerprint ≡ true
unfolding node_at importable_fingerprints
node_at-importable n [] node e h = cc
node_at-importable zero (x ∷ xs) node e h =
    ground (arith, string_eq.equals_iff x.fingerprint x.fingerprint)
node_at-importable (suc n) (x ∷ xs) node e h = ground (arith, node_at-importable n xs node)

contains-filter :
    (p : ParsedNodePreview → Bool) (nodes : List ParsedNodePreview) (f : String)
    → contains (importable_fingerprints (filter p nodes)) f ≡ true
    → contains (importable_fingerprints nodes) f ≡ true
unfolding importable_fingerprints
contains-filter p [] f h = h
contains-filter p (x ∷ xs) f h = ground (arith, contains-filter p xs f)

Distinct-filter :
    (p : ParsedNodePreview → Bool) (nodes : List ParsedNodePreview)
    → Distinct (importable_fingerprints nodes)
    → Distinct (importable_fingerprints (filter p nodes))
unfolding importable_fingerprints
Distinct-filter p [] d = tt
Distinct-filter p (x ∷ xs) d =
    ground (arith, Distinct-filter p xs, contains-filter p xs x.fingerprint)

module _ (File : Type 0) where
  parsed_nothing : Distinct (importable_fingerprints [])
  unfolding importable_fingerprints
  parsed_nothing = tt

  pub initial-IsValid : IsValid (initial File)
  unfolding importable_fingerprints
  initial-IsValid = record {
    within = λ f h. ground arith;
    distinct = tt;
    known = tt;
    parsed_first = λ e. refl;
  }

  toggle_found-IsValid :
      (found : Option ParsedNodePreview) (checked : Bool) (s : State File)
      → IsValid s
      → ((node : ParsedNodePreview)
          → found ≡ some node
          → is_importable node ≡ true
          → contains (importable_fingerprints s.preview_nodes) node.fingerprint ≡ true)
      → IsValid (toggle_node File found checked s)
  unfolding toggle_node
  toggle_found-IsValid none checked s v known = v
  toggle_found-IsValid (some node) checked s v known = elim (Bool-cases (is_importable node)) [
    | inr duplicate ↦ rw duplicate v
    | inl importable ↦ rw importable (record {
      within = λ f h. ground (
        arith,
        contains-toggle s.selected_fingerprints node.fingerprint f checked,
        string_eq.equals_iff node.fingerprint f,
        known node refl importable,
        v.within f,
      );
      distinct = toggle-Distinct s.selected_fingerprints node.fingerprint checked v.distinct;
      known = v.known;
      parsed_first = v.parsed_first;
    })
  ]

  remove_previews-IsValid : (s : State File) → IsValid s → IsValid (remove_previews File s)
  unfolding remove_previews
  remove_previews-IsValid s v = elim (Bool-cases (is_empty s.selected_fingerprints)) [
    | inl empty ↦ rw empty (record {
      within = v.within;
      distinct = v.distinct;
      known = v.known;
      parsed_first = v.parsed_first;
    })
    | inr some_selected ↦ rw some_selected (record {
      within = λ f h. ground arith;
      distinct = tt;
      known = Distinct-filter _ s.preview_nodes v.known;
      parsed_first = λ e. rw (v.parsed_first e) refl;
    })
  ]

  mark_imported-none :
      (r : SourceImportResult) (p : Option SourceParseResult)
      → mark_imported File r p ≡ none
      → p ≡ none
  unfolding mark_imported
  mark_imported-none r none h = refl
  mark_imported-none r (some p) h = cc

  module _ (show : ℕ → String) (parse_url : Text → Option Url) where
    step-IsValid :
        (s : State File) (e : Event File)
        → IsHonest e
        → IsValid s
        → IsValid (step File show parse_url s e).0
    unfolding step importable_fingerprints
    step-IsValid s (click_box n checked) h v =
        toggle_found-IsValid (node_at n s.preview_nodes) checked s v
          (node_at-importable n s.preview_nodes)
    step-IsValid s remove_selected h v = remove_previews-IsValid s v
    step-IsValid s clear h v = initial-IsValid
    step-IsValid s (imported result) h v = record {
      within = v.within;
      distinct = v.distinct;
      known = v.known;
      parsed_first = λ e. v.parsed_first (mark_imported-none result s.parse_result e);
    }
    step-IsValid s (parsed result) h v = record {
      within = λ f k. k;
      distinct = h;
      known = h;
      parsed_first = λ e. ground arith;
    }
    step-IsValid s select_importable h v = record {
      within = λ f k. k;
      distinct = v.known;
      known = v.known;
      parsed_first = v.parsed_first;
    }
    step-IsValid s (parse_failed thrown) h v = record {
      within = λ f k. k;
      distinct = tt;
      known = parsed_nothing;
      parsed_first = λ e. refl;
    }
    step-IsValid s clear_selection h v = record {
      within = λ f k. cc;
      distinct = tt;
      known = v.known;
      parsed_first = v.parsed_first;
    }
    step-IsValid s e h v = ground arith

    pub run-IsValid :
        (s : State File) (es : List (Event File))
        → All IsHonest es
        → IsValid s
        → IsValid (run File show parse_url s es)
    unfolding run
    run-IsValid s [] h v = v
    run-IsValid s (e ∷ es) (k, h) v =
        run-IsValid (step File show parse_url s e).0 es h (step-IsValid s e k v)
