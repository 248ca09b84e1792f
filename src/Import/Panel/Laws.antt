-- ===== src/Import/Panel/Laws.antt =====
-- What the import panel may send, and its summary.
use poolx.Common.{
  ℕ, ◌+◌, true, false, not, ◌||◌, List, [], ◌∷◌, Option, none, some, String, filter, length,
  is_empty, string_eq, All, ◌≡◌, ◌≢◌, ◌↔◌, refl, arith, Bool-cases, inl, inr,
}
use poolx.Common.Text.{Text, trim}
use poolx.Common.Unique.{contains, Distinct}
use poolx.Import.{ParsedNodePreview, ParseSummary, SourceParseResult, is_importable}
use poolx.Import.Origin.{Url, is_valid_subscription_url}
use poolx.Import.Panel.{
  State, Effect, Event, initial, importable_fingerprints, summary, step, run, reject_import,
  reject_test, click_test, import_source_config, test_parsed_nodes, parse_source_config_by_url,
  parse_request, import_request, test_request, click_import, click_parse,
}
use poolx.Import.Panel.Validity.{IsValid, IsHonest, initial-IsValid, run-IsValid}

nothing_importable :
    (nodes : List ParsedNodePreview) (f : String)
    → nodes ≡ []
    → contains (importable_fingerprints nodes) f ≡ true
    → ⊥
unfolding importable_fingerprints
nothing_importable [] f e h = ground arith
nothing_importable (x ∷ xs) f e h = absurd (ground arith)

length-partition :
    (nodes : List ParsedNodePreview)
    → length (filter (λ n. not (is_importable n)) nodes) + length (filter is_importable nodes)
      ≡ length nodes
length-partition [] = refl
length-partition (x ∷ xs) = ground (arith, length-partition xs)

-- The summary shows for total what it shows for valid and for invalid, and for valid what it shows
-- for duplicate and for importable; it is shown exactly when there is a parse result.
pub summary_lem :
    {File : Type 0} (s : State File)
    → ((summary s ≡ none) ↔ (s.parse_result ≡ none))
      × ((t : ParseSummary)
          → summary s ≡ some t
          → (t.total_nodes ≡ t.valid_nodes + t.invalid_nodes)
            × (t.valid_nodes ≡ t.duplicate_nodes + t.importable_nodes))
unfolding summary
summary_lem s = (ground arith, λ t shown. ground (arith, length-partition s.preview_nodes))

module _ (File : Type 0) (show : ℕ → String) (parse_url : Text → Option Url) where
  -- A request for chosen nodes is about the configuration that was parsed, names one node at
  -- least and none twice, and only nodes of the preview that can be imported.
  abbrev pub IsChoice : State File → ℕ → List String → Type 0
  IsChoice s id fingerprints =
      ((result : SourceParseResult) × (s.parse_result ≡ some result)
        × (id ≡ result.source_config.id))
      × (fingerprints ≢ [])
      × Distinct fingerprints
      × ((f : String)
          → contains fingerprints f ≡ true
          → contains (importable_fingerprints s.preview_nodes) f ≡ true)

  -- What the panel may send from a state.
  abbrev pub Allowed : State File → Effect File → Type 0
  Allowed s (import_source_config id fingerprints) = IsChoice s id fingerprints
  Allowed s (test_parsed_nodes id fingerprints) = IsChoice s id fingerprints
  Allowed s (parse_source_config_by_url address) =
      (address ≡ trim s.subscription_address) × (is_valid_subscription_url parse_url address ≡ true)
  Allowed s (reject_import thrown) = ⊥
  Allowed s (reject_test thrown) = ⊥
  Allowed s _ = Unit

  some_selected :
      (fingerprints : List String)
      → is_empty fingerprints ≡ false
      → (f : String) × (contains fingerprints f ≡ true)
  some_selected [] h = cc
  some_selected (x ∷ xs) h = (x, ground (arith, string_eq.equals_iff x x))

  present : {A : Type 0} (o : Option A) → ¬ (o ≡ none) → (a : A) × (o ≡ some a)
  present none h = absurd (h refl)
  present (some a) h = (a, refl)

  selected-parsed :
      (s : State File)
      → IsValid s
      → is_empty s.selected_fingerprints ≡ false
      → (result : SourceParseResult) × (s.parse_result ≡ some result)
  selected-parsed s v h = present s.parse_result (λ nothing.
      let (f, chosen) = some_selected s.selected_fingerprints h in
      nothing_importable s.preview_nodes f (v.parsed_first nothing) (v.within f chosen))

  import_request-of :
      (s : State File) (result : SourceParseResult)
      → s.parse_result ≡ some result
      → import_request File s ≡ import_source_config result.source_config.id s.selected_fingerprints
  unfolding import_request
  import_request-of s result e = rw e refl

  test_request-of :
      (s : State File) (result : SourceParseResult)
      → s.parse_result ≡ some result
      → is_empty s.selected_fingerprints ≡ false
      → test_request File s ≡ test_parsed_nodes result.source_config.id s.selected_fingerprints
  unfolding test_request
  test_request-of s result e chosen = rw (e, chosen) refl

  is_choice :
      (s : State File) (result : SourceParseResult)
      → IsValid s
      → s.parse_result ≡ some result
      → is_empty s.selected_fingerprints ≡ false
      → IsChoice s result.source_config.id s.selected_fingerprints
  is_choice s result v e chosen =
      ((result, e, refl), (λ nothing. ground arith), v.distinct, v.within)

  step-Allowed :
      (s : State File) (e : Event File)
      → IsValid s
      → All (Allowed s) (step File show parse_url s e).1
  unfolding step parse_request
  step-Allowed s (click_import pending) v =
      elim (Bool-cases (pending || is_empty s.selected_fingerprints)) [
        | inl stop ↦ rw stop tt
        | inr go ↦
            let (result, e) = selected-parsed s v (ground arith) in
            rw (go, import_request-of s result e) (is_choice s result v e (ground arith), tt)
      ]
  step-Allowed s (click_test pending) v =
      elim (Bool-cases (pending || is_empty s.selected_fingerprints)) [
        | inl stop ↦ rw stop tt
        | inr go ↦
            let (result, e) = selected-parsed s v (ground arith) in
            rw (go, test_request-of s result e (ground arith))
              (is_choice s result v e (ground arith), tt)
      ]
  step-Allowed s (click_parse pending) v = ground arith
  step-Allowed s e v = ground arith

  pub run-initial-Allowed :
      (es : List (Event File)) (e : Event File)
      → All IsHonest es
      → let s = run File show parse_url (initial File) es in
        All (Allowed s) (step File show parse_url s e).1
  run-initial-Allowed es e h =
      step-Allowed (run File show parse_url (initial File) es) e
        (run-IsValid File show parse_url (initial File) es h (initial-IsValid File))
