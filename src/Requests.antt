-- ===== src/Requests.antt =====
-- The requests that the modules server/web/features/*/api make through `apiRequest`: a method, a
-- path and a body. A payload is given as the JSON value that `JSON.stringify` prints.
pub mod Settings
pub mod Users
pub mod Nodes
pub mod Kernel
pub mod Calls
pub mod Parameters
pub mod Laws
pub mod Pages
use poolx.Common.{
  ℕ, Bool, true, false, List, [], ◌∷◌, ◌++◌, Option, none, some, String, map, ◌+◌, ◌*◌,
}
use poolx.Common.Number.{print}
use poolx.Common.Text.{Text, units}
use poolx.Api.{RequestInit}
use poolx.Url.{search_params}

mutual
  pub data Json : Type 0 where
    text : Text → Json
    number : ℕ → Json
    flag : Bool → Json
    list : JsonItems → Json
    object : JsonFields → Json

  pub data JsonItems : Type 0 where
    nil : JsonItems
    cons : Json → JsonItems → JsonItems

  pub data JsonFields : Type 0 where
    end : JsonFields
    field : String → Json → JsonFields → JsonFields

-- A list of texts and of numbers.
abbrev pub texts : List Text → JsonItems
texts [] = nil
texts (t ∷ ts) = cons (text t) (texts ts)

abbrev pub numbers : List ℕ → JsonItems
numbers [] = nil
numbers (n ∷ ns) = cons (number n) (numbers ns)

-- A `FormData` in the order of the calls of `append`; a file is of the browser's type `File`.
pub data FormValue (File : Type 0) : Type 0 where
  file_value : File → FormValue File
  text_value : Text → FormValue File

pub data RequestBody (File : Type 0) : Type 0 where
  no_body : RequestBody File
  json_body : Json → RequestBody File
  form_body : List (String × FormValue File) → RequestBody File

-- The arguments of `apiRequest`; no method is a GET.
pub record Request (File : Type 0) : Type 0 where
  pub path : Text
  pub method : Option String
  pub body : RequestBody File

abbrev pub is_form : {File : Type 0} → RequestBody File → Bool
is_form (form_body parts) = true
is_form _ = false

-- The `init` that `apiRequest` is called with.
unfoldable pub init_of : {File : Type 0} → Request File → RequestInit
init_of r = record { method = r.method; headers = none; form_data = is_form r.body; cache = none }

abbrev pub get : {File : Type 0} → Text → Request File
get path = record { path = path; method = none; body = no_body }

abbrev pub post : {File : Type 0} → Text → Request File
post path = record { path = path; method = some "POST"; body = no_body }

abbrev pub post_json : {File : Type 0} → Text → Json → Request File
post_json path value = record { path = path; method = some "POST"; body = json_body value }

abbrev pub post_form : {File : Type 0} → Text → List (String × FormValue File) → Request File
post_form path parts = record { path = path; method = some "POST"; body = form_body parts }

-- A template of a path with a number in it, and one with a query after it.
abbrev pub with_id : String → ℕ → String → Text
with_id before id after = units before ++ (print id ++ units after)

abbrev pub with_query : String → List (Text × Text) → Text
with_query route params = units route ++ b'?' ∷ search_params params
