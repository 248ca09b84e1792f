-- ===== src/Settings/Server/Laws.antt =====
-- What the page can read back of the options that the server keeps.
use poolx.Common.{
  false, ◌||◌, List, [], ◌∷◌, ◌++◌, Option, none, some, String, map, ◌≡◌, refl, ◌∙◌, arith,
  if◌then◌else◌, str_eq, str_eq_iff, string_eq, All, Bool-cases, inl, inr,
}
use poolx.Common.Unique.{contains, Distinct}
use poolx.Common.Text.{Text}
use poolx.Settings.Options.{add_entries, get_entry, options_to_map, set_entry}
use poolx.Settings.Entries.{Entries}
use poolx.Settings.Entries.Laws.{keys}
use poolx.Settings.Actions.{Effect, update_option}
use poolx.Settings.Actions.Laws.{update_of}
use poolx.Settings.Server.{
  OptionMap, handle, is_listed, list_editable_options, serve, update_option_map,
}

-- A map holds a key once.
abbrev pub IsMap : OptionMap → Type 0
IsMap options = Distinct (keys options)

pub get_entry-set_entry :
    (key : String) (value : Text) (options : OptionMap) (k : String)
    → get_entry k (set_entry key value options)
      ≡ (if str_eq key k then some value else get_entry k options)
unfolding get_entry set_entry
get_entry-set_entry key value [] k = refl
get_entry-set_entry key value ((k0, v) ∷ rest) k = ground (
  arith,
  get_entry-set_entry key value rest k,
  str_eq_iff k0 key,
  str_eq_iff k0 k,
  str_eq_iff key k,
)

get_entry-absent :
    (k : String) (options : OptionMap)
    → contains (keys options) k ≡ false
    → get_entry k options ≡ none
unfolding get_entry
get_entry-absent k [] h = refl
get_entry-absent k ((k0, v) ∷ rest) h = ground (arith, h, get_entry-absent k rest)

-- What a list of the options tells of a key.
abbrev pub listed_entry : String → OptionMap → Option Text
listed_entry k options = if is_listed k then get_entry k options else none

abbrev or_entry : Option Text → Option Text → Option Text
or_entry none b = b
or_entry (some a) b = some a

get_entry-listed :
    (k : String) (options acc : OptionMap)
    → IsMap options
    → get_entry k (add_entries acc (list_editable_options options))
      ≡ or_entry (listed_entry k options) (get_entry k acc)
unfolding list_editable_options add_entries get_entry
get_entry-listed k [] acc d = ground arith
get_entry-listed k ((k0, v) ∷ rest) acc (d, ds) = elim (Bool-cases (is_listed k0)) [
  | inl e ↦ rw e (
      ground (
        arith,
        e,
        get_entry-listed k rest (set_entry k0 v acc) ds,
        get_entry-set_entry k0 v acc k,
        str_eq_iff k0 k,
        get_entry-absent k rest,
        d,
      ))
  | inr e ↦ rw e (ground (arith, e, get_entry-listed k rest acc ds, str_eq_iff k0 k))
]

-- An answer of the server holds an option exactly where it may be shown, whatever its order is.
pub get_entry-list :
    (k : String) (options : OptionMap)
    → IsMap options
    → get_entry k (options_to_map (some (list_editable_options options))) ≡ listed_entry k options
unfolding options_to_map get_entry
get_entry-list k options m = ground (arith, get_entry-listed k options [] m)

-- A key of the map before or of an entry that is put into it.
keys-set_entry :
    (key : String) (value : Text) (options : OptionMap) (k : String)
    → contains (keys (set_entry key value options)) k ≡ (contains (keys options) k || str_eq key k)
unfolding set_entry
keys-set_entry key value [] k = ground arith
keys-set_entry key value ((k0, v) ∷ rest) k =
    ground
      (arith, keys-set_entry key value rest k, str_eq_iff k0 key, str_eq_iff k0 k, str_eq_iff key k)

set_entry-IsMap :
    (key : String) (value : Text) (options : OptionMap)
    → IsMap options
    → IsMap (set_entry key value options)
unfolding set_entry
set_entry-IsMap key value [] m = (refl, tt)
set_entry-IsMap key value ((k0, v) ∷ rest) (d, ds) = elim (Bool-cases (str_eq k0 key)) [
  | inl e ↦ rw e (d, ds)
  | inr e ↦ rw e (
    ground (arith, keys-set_entry key value rest k0, str_eq_iff k0 key, str_eq_iff key k0, e, d),
    set_entry-IsMap key value rest ds,
  )
]

pub serve-IsMap :
    (options : OptionMap) (es : List Effect) → IsMap options → IsMap (serve options es)
unfolding serve handle update_option_map
serve-IsMap options [] m = m
serve-IsMap options (update_option key value ∷ es) m =
    serve-IsMap (set_entry key value options) es (set_entry-IsMap key value options m)
serve-IsMap options (_ ∷ es) m = serve-IsMap options es m

serve-absent :
    (k : String) (entries : Entries) (options : OptionMap)
    → contains (keys entries) k ≡ false
    → get_entry k (serve options (map update_of entries)) ≡ get_entry k options
unfolding serve handle update_option_map
serve-absent k [] options h = refl
serve-absent k ((key, value) ∷ entries) options h =
    serve-absent k entries (set_entry key value options) (ground (arith, h))
    ∙ ground (arith, h, get_entry-set_entry key value options k)

-- After a save of entries with different keys, each of them is stored.
pub serve-entries :
    (entries : Entries) (options : OptionMap)
    → Distinct (keys entries)
    → All (λ e. get_entry e.0 (serve options (map update_of entries)) ≡ some e.1) entries
unfolding serve handle update_option_map
serve-entries [] options d = tt
serve-entries ((key, value) ∷ entries) options (d, ds) = (
  serve-absent key entries (set_entry key value options) d
      ∙ ground (arith, get_entry-set_entry key value options key, str_eq_iff key key),
  serve-entries entries (set_entry key value options) ds,
)

pub serve-append :
    (es fs : List Effect) (options : OptionMap)
    → serve options (es ++ fs) ≡ serve (serve options es) fs
unfolding serve
serve-append [] fs options = refl
serve-append (e ∷ es) fs options = serve-append es fs (handle options e)
