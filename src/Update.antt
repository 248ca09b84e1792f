-- ===== src/Update.antt =====
-- The upgrade of the server: server/web/features/update, with the records of types.ts. The component
-- components/version-upgrade-modal.tsx calls back its parent, so that the calls are its effects; what
-- the parent passes is `View`. Messages and dates are texts of the parent, and a file is any type.
pub mod Laws
pub mod Screen
use poolx.Common.{
  ℕ, zero, suc, Bool, true, false, not, ◌&&◌, ◌||◌, List, [], ◌∷◌, ◌++◌, Option, none, some, String,
  if◌then◌else◌, is_empty, drop, length, leb, str_eq, or_else,
}
use poolx.Common.Text.{Text, units, starts_with}
use poolx.Users.Form.{BadgeMeta, warning, info, success}

pub data ReleaseChannel : Type 0 where
  stable preview : ReleaseChannel

pub record UpgradeLogItem : Type 0 where
  pub level : Text
  pub message : Text
  pub created_at : Text

pub record LatestReleaseInfo : Type 0 where
  pub tag_name : Text
  pub body : Text
  pub html_url : Text
  pub published_at : Text
  pub channel : ReleaseChannel
  pub prerelease : Bool
  pub current_version : Text
  pub has_update : Bool
  pub upgrade_supported : Bool
  pub in_progress : Bool
  pub upgrade_status : String
  pub upgrade_logs : List UpgradeLogItem

pub record UpgradeStreamSnapshot : Type 0 where
  pub in_progress : Bool
  pub upgrade_status : String
  pub upgrade_logs : List UpgradeLogItem

pub record UploadedServerBinaryInfo : Type 0 where
  pub upload_token : Text
  pub file_name : Text
  pub detected_version : Text
  pub current_version : Text
  pub has_update : Bool
  pub upgrade_supported : Bool
  pub ready_to_upgrade : Bool
  pub comparison_message : Text
  pub uploaded_at : Text

-- `getUpgradeBadge`.
unfoldable pub get_upgrade_badge : Option LatestReleaseInfo → BadgeMeta
get_upgrade_badge none = record { label = "未检查"; variant = info }
get_upgrade_badge (some release) =
    if release.in_progress
    then record { label = "升级中"; variant = warning }
    else if release.has_update
    then record { label = "可升级"; variant = warning }
    else record { label = "最新"; variant = success }

-- `padEnd(8, ' ')` and `formatLogLevel`; `upper` is `toUpperCase`.
unfoldable pub pad_end : ℕ → Text → Text
pad_end zero s = s
pad_end (suc n) [] = b' ' ∷ pad_end n []
pad_end (suc n) (c ∷ s) = c ∷ pad_end n s

unfoldable pub format_log_level : (Text → Text) → Text → Text
format_log_level upper level = pad_end 8 (upper (if is_empty level then units "info" else level))

-- The message of the stream, where each field is there with its type; `parse` is `JSON.parse` as far
-- as it succeeds with an object.
pub record Raw : Type 0 where
  pub in_progress : Option Bool
  pub upgrade_status : Option String
  pub upgrade_logs : Option (List UpgradeLogItem)

unfoldable pub parse_upgrade_stream_snapshot :
    (Text → Option Raw) → Text → Option UpgradeStreamSnapshot
parse_upgrade_stream_snapshot parse message = elim (parse message) [
  | none ↦ none
  | some raw ↦ elim raw.in_progress [
    | none ↦ none
    | some running ↦ elim raw.upgrade_status [
      | none ↦ none
      | some status ↦ elim raw.upgrade_logs [
        | none ↦ none
        | some logs ↦
            some (record { in_progress = running; upgrade_status = status; upgrade_logs = logs })
      ]
    ]
  ]
]

-- The URL of `createUpgradeLogsWebSocket`, for `getApiUrl` and the location of the page.
unfoldable pub websocket_url : (api_url : Text) → (https : Bool) → (host : Text) → Text
websocket_url api_url https host =
    if starts_with api_url (units "http://")
    then units "ws://" ++ drop 7 api_url
    else if starts_with api_url (units "https://")
    then units "wss://" ++ drop 8 api_url
    else units (if https then "wss:" else "ws:") ++ (units "//" ++ (host ++ api_url))

pub record View : Type 0 where
  pub release : Option LatestReleaseInfo
  pub selected_channel : ReleaseChannel
  pub uploaded_binary : Option UploadedServerBinaryInfo
  pub is_loading : Bool
  pub has_release_error : Bool
  pub can_upgrade : Bool
  pub is_checking : Bool
  pub is_upgrading : Bool
  pub is_uploading_binary : Bool
  pub is_confirming_manual_upgrade : Bool

-- `canConfirmManualUpgrade`.
unfoldable pub can_confirm_manual_upgrade : View → Bool
can_confirm_manual_upgrade v = elim v.uploaded_binary [
  | none ↦ false
  | some binary ↦ binary.ready_to_upgrade && not (is_empty binary.upload_token)
]

-- Whether the button that upgrades is shown and enabled.
unfoldable pub upgrade_enabled : View → Bool
upgrade_enabled v = elim v.release [
  | none ↦ false
  | some release ↦
      not v.is_loading
      && (not v.has_release_error
          && (v.can_upgrade
              && (release.has_update
                  && (not release.in_progress
                      && (not v.is_upgrading
                          && (release.upgrade_supported
                              && (not v.is_uploading_binary
                                  && not v.is_confirming_manual_upgrade)))))))
]

-- The same of the button that confirms a manual upgrade.
unfoldable pub confirm_enabled : View → Bool
confirm_enabled v =
    v.can_upgrade
    && (can_confirm_manual_upgrade v
        && (not v.is_confirming_manual_upgrade
            && (not v.is_uploading_binary && not v.is_upgrading)))

unfoldable pub other_channel : ReleaseChannel → ReleaseChannel
other_channel stable = preview
other_channel preview = stable

pub data Effect (File : Type 0) : Type 0 where
  change_channel : ReleaseChannel → Effect File
  check upgrade confirm_manual_upgrade : Effect File
  upload_binary : File → Effect File

pub data Event (File : Type 0) : Type 0 where
  channel_clicked check_clicked upgrade_clicked confirm_clicked upload_clicked : Event File
  file_selected : Option File → Event File
  opened : Bool → Event File

-- The file selected, and the calls; the effect on `isOpen` drops the file when the dialog closes.
unfoldable pub step :
    {File : Type 0} → View → Option File → Event File → Option File × List (Effect File)
step v file channel_clicked = (
  file,
  if v.can_upgrade && not (v.is_checking || v.is_upgrading || v.is_uploading_binary)
      then change_channel (other_channel v.selected_channel) ∷ []
      else [],
)
step v file check_clicked = (
  file,
  if not (v.is_checking || v.is_upgrading || v.is_uploading_binary) then check ∷ [] else [],
)
step v file upgrade_clicked = (file, if upgrade_enabled v then upgrade ∷ [] else [])
step v file confirm_clicked = (file, if confirm_enabled v then confirm_manual_upgrade ∷ [] else [])
step v none upload_clicked = (none, [])
step v (some chosen) upload_clicked = (
  some chosen,
  if v.can_upgrade
        && (not (can_confirm_manual_upgrade v)
            && (not v.is_uploading_binary && not v.is_confirming_manual_upgrade))
      then upload_binary chosen ∷ []
      else [],
)
step v file (file_selected chosen) =
    if v.can_upgrade && (not v.is_uploading_binary && not v.is_confirming_manual_upgrade)
    then (chosen, [])
    else (file, [])
step v file (opened is_open) = (if is_open then file else none, [])
