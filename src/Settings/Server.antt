-- ===== src/Settings/Server.antt =====
-- The options as the server keeps them: `OptionMap` with server/internal/model/option.go and
-- `ListEditableOptions` of server/internal/service/option.go, as far as the settings page relies on
-- them. The entries stand in the order of the server's next iteration, which may be any.
pub mod Laws
pub mod Saving
pub mod Secrets
use poolx.Common.{Bool, not, ◌&&◌, ◌||◌, List, [], ◌∷◌, String, if◌then◌else◌, str_eq}
use poolx.Common.Text.{Text, units, includes}
use poolx.Settings.{OptionItem}
use poolx.Settings.Options.{set_entry}
use poolx.Settings.Actions.{Effect, update_option}

abbrev pub OptionMap : Type 0
OptionMap = List (String × Text)

-- Whether the list of the options shows a key.
unfoldable pub is_listed : String → Bool
is_listed key = not (
    includes (units key) (units "Token")
    || (includes (units key) (units "Secret") && not (str_eq key "ClashSecret")))

unfoldable pub list_editable_options : OptionMap → List OptionItem
list_editable_options [] = []
list_editable_options ((key, value) ∷ options) =
    let items = list_editable_options options in
    if is_listed key then record { key = key; value = value } ∷ items else items

-- `UpdateOption` on the map, for a key and a value that were accepted.
unfoldable pub update_option_map : String → Text → OptionMap → OptionMap
update_option_map key value options = set_entry key value options

-- The server after requests of the page that succeeded.
unfoldable pub handle : OptionMap → Effect → OptionMap
handle options (update_option key value) = update_option_map key value options
handle options _ = options

unfoldable pub serve : OptionMap → List Effect → OptionMap
serve options [] = options
serve options (e ∷ es) = serve (handle options e) es
