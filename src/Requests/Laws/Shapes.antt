-- ===== src/Requests/Laws/Shapes.antt =====
-- The shapes that the requests have, each with the parameters that are read from its path.
use poolx.Common.{ℕ, false, List, [], ◌∷◌, ◌++◌, Option, none, some, String, ◌≡◌, refl}
use poolx.Common.Number.{print}
use poolx.Common.Text.{Text, units}
use poolx.Url.{encode_uri_component}
use poolx.Url.Reading.{read_text, read_url}
use poolx.Url.Laws.{IsWellFormed, AreWellFormed}
use poolx.Url.Paths.{
  holds, parameters_of_plain, parameters_of_id, parameters_of_query, parameters_of_component,
  parameters_of_number,
}
use poolx.Requests.{
  Json, FormValue, no_body, Request, get, post, post_json, post_form, with_id, with_query,
}

-- A read without a body, or a POST.
pub data Shape {File : Type 0} (r : Request File) : Type 0 where
  as_get : r.method ≡ none → r.body ≡ no_body → Shape r
  as_post : r.method ≡ some "POST" → Shape r

abbrev NoMark : String → Type 0
NoMark s = holds b'?' (units s) ≡ false

module _ {File : Type 0} where
  -- A request is made, whose query holds these parameters.
  abbrev pub Served : Option (Request File) → List (Text × Text) → Type 0
  Served made params =
      (r : Request File) × (made ≡ some r) × ((read_url r.path).1 ≡ params) × Shape r

  pub plain_get : (path : String) → NoMark path → Served (some (get (units path))) []
  plain_get path h = (_, refl, parameters_of_plain (units path) h, as_get refl refl)

  pub plain_post : (path : String) → NoMark path → Served (some (post (units path))) []
  plain_post path h = (_, refl, parameters_of_plain (units path) h, as_post refl)

  pub plain_json :
      (path : String) (value : Json) → NoMark path → Served (some (post_json (units path) value)) []
  plain_json path value h = (_, refl, parameters_of_plain (units path) h, as_post refl)

  pub plain_form :
      (path : String) (parts : List (String × FormValue File))
      → NoMark path
      → Served (some (post_form (units path) parts)) []
  plain_form path parts h = (_, refl, parameters_of_plain (units path) h, as_post refl)

  module _ (before : String) (id : ℕ) (after : String) where
    pub id_get : NoMark before → NoMark after → Served (some (get (with_id before id after))) []
    id_get h k = (_, refl, parameters_of_id (units before) id (units after) h k, as_get refl refl)

    pub id_post : NoMark before → NoMark after → Served (some (post (with_id before id after))) []
    id_post h k = (_, refl, parameters_of_id (units before) id (units after) h k, as_post refl)

    pub id_json :
        (value : Json)
        → NoMark before
        → NoMark after
        → Served (some (post_json (with_id before id after) value)) []
    id_json value h k =
        (_, refl, parameters_of_id (units before) id (units after) h k, as_post refl)

  pub query_get :
      (route : String) (params : List (Text × Text))
      → NoMark route
      → AreWellFormed params
      → Served (some (get (with_query route params))) params
  query_get route params h w =
      (_, refl, parameters_of_query (units route) params h w, as_get refl refl)

  -- A request whose path ends in a parameter that is written by hand.
  module _ (route name : Text) (make : Text → Request File)
      (path : (value : Text) → (make value).path ≡ route ++ b'?' ∷ (name ++ b'=' ∷ value))
      (shape : (value : Text) → Shape (make value)) (no_mark : holds b'?' route ≡ false)
      (no_equals : holds b'=' name ≡ false) (no_amp : holds b'&' name ≡ false)
      (plain : read_text name ≡ name) where
    pub component-Served :
        (s : Text)
        → IsWellFormed s
        → Served
            (elim (encode_uri_component s) [ none ↦ none | some e ↦ some (make e) ])
            ((name, s) ∷ [])
    component-Served s w =
        let (e, written, read) =
          parameters_of_component route name s no_mark no_equals no_amp plain w in
        (make e, rw written refl, rw (path e) read, shape e)

    pub number-Served : (n : ℕ) → Served (some (make (print n))) ((name, print n) ∷ [])
    number-Served n = (
      make (print n),
      refl,
      rw (path (print n)) (parameters_of_number route name n no_mark no_equals no_amp plain),
      shape (print n),
    )
