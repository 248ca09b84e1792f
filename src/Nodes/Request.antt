-- ===== src/Nodes/Request.antt =====
-- What the node page asks of the server: api/nodes.ts. A query is the list of its parameters in
-- the order of the calls of `set`; a number stands for its decimal print, and the code calls `set`
-- once at most for each name.
pub mod Laws
use poolx.Common.{
  ℕ, Bool, true, false, not, List, [], ◌∷◌, ◌++◌, Option, none, some, String, if◌then◌else◌,
  is_empty, str_eq,
}
use poolx.Common.Text.{Text, trim}

-- `ProxyNodeSort`.
pub data ProxyNodeSort : Type 0 where
  id_desc latency_asc : ProxyNodeSort

-- `'all' | 'true' | 'false'`.
pub data EnabledFilter : Type 0 where
  all_nodes only_enabled only_disabled : EnabledFilter

pub data QueryValue : Type 0 where
  number : ℕ → QueryValue
  text : Text → QueryValue
  flag : Bool → QueryValue
  order : ProxyNodeSort → QueryValue

-- The argument of `getProxyNodes`.
pub record ListParams : Type 0 where
  pub page : ℕ
  pub keyword : Option Text
  pub enabled : Option EnabledFilter
  pub page_size : Option ℕ
  pub sort : Option ProxyNodeSort

-- `if (keyword?.trim())`: the trimmed keyword, if it is not blank.
abbrev pub trimmed : Option Text → Option Text
trimmed none = none
trimmed (some k) = if is_empty (trim k) then none else some (trim k)

-- `if (enabled && enabled !== 'all')`: whether enabled nodes are wanted.
abbrev pub wanted : Option EnabledFilter → Option Bool
wanted none = none
wanted (some all_nodes) = none
wanted (some only_enabled) = some true
wanted (some only_disabled) = some false

abbrev param : {A : Type 0} → String → (A → QueryValue) → Option A → List (String × QueryValue)
param name value none = []
param name value (some a) = (name, value a) ∷ []

-- The query of `getProxyNodes`.
unfoldable pub list_query : ListParams → List (String × QueryValue)
list_query params =
    ("p", number params.page)
    ∷ (param "keyword" text (trimmed params.keyword)
        ++ (param "enabled" flag (wanted params.enabled)
            ++ (param "page_size" number params.page_size ++ param "sort" order params.sort)))

-- The body of `testAllProxyNodes`.
pub record TestAllBody : Type 0 where
  pub keyword : Option Text
  pub enabled : Option Bool

unfoldable pub test_all_body : Option Text → Option EnabledFilter → TestAllBody
test_all_body keyword enabled = record { keyword = trimmed keyword; enabled = wanted enabled }

-- The value of a parameter.
unfoldable pub lookup_param : String → List (String × QueryValue) → Option QueryValue
lookup_param name [] = none
lookup_param name ((n, v) ∷ query) = if str_eq n name then some v else lookup_param name query
