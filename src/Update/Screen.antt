-- ===== src/Update/Screen.antt =====
-- components/version-upgrade-modal.tsx: what the dialog shows, but for its fixed texts. `Texts` are
-- the properties that `View` leaves out. `format` gives the two formats of the time of publication,
-- `read_date` is `new Date`, and `upper` is `toUpperCase`.
pub mod Laws
use poolx.Common.{
  ℕ, ◌+◌, Bool, true, false, not, ◌&&◌, ◌||◌, List, [], ◌∷◌, ◌++◌, Option, none, some, String,
  if◌then◌else◌, is_empty, is_some, leb, map, str_eq,
}
use poolx.Common.Number.{print_int, pad_start}
use poolx.Common.Text.{Text, units}
use poolx.Users.Form.{BadgeMeta, Variant, warning, info, success, danger}
use poolx.Dates.Stamp.{DateParts}
use poolx.Update.{
  LatestReleaseInfo, ReleaseChannel, stable, preview, UpgradeLogItem, UploadedServerBinaryInfo,
  View, can_confirm_manual_upgrade, format_log_level, get_upgrade_badge,
}

pub record Texts : Type 0 where
  pub current_version : Text
  pub release_error : Text
  pub manual_status : Text
  pub manual_error : Text
  pub upload_progress : ℕ

pub record Button : Type 0 where
  pub label : String
  pub enabled : Bool

abbrev badge : String → Variant → BadgeMeta
badge label variant = record { label = label; variant = variant }

-- `text || fallback`.
abbrev text_or : Text → String → Text
text_or text fallback = if is_empty text then units fallback else text

unfoldable pub channel_label : ReleaseChannel → String
channel_label preview = "预览版"
channel_label stable = "正式版"

-- `formatLogTimestamp`.
unfoldable pub format_log_timestamp : Option DateParts → Text
format_log_timestamp none = units "0000-00-00 00:00:00.000"
format_log_timestamp (some d) =
    print_int d.full_year
    ++ b'-'
      ∷ (pad_start (d.month + 1) 2
          ++ b'-'
            ∷ (pad_start d.date 2
                ++ b' '
                  ∷ (pad_start d.hours 2
                      ++ b':'
                        ∷ (pad_start d.minutes 2
                            ++ b':'
                              ∷ (pad_start d.seconds 2 ++ b'.' ∷ pad_start d.milliseconds 3)))))

-- The badge of the channel, which is a button.
pub record ChannelBadge : Type 0 where
  pub label : String
  pub variant : Variant
  pub enabled : Bool

-- The two cards at the top: the channel can be changed by who may upgrade.
pub record Versions : Type 0 where
  pub current : Text
  pub state : BadgeMeta
  pub latest : Text
  pub channel : Option ChannelBadge
  pub check : Button

abbrev tag_of : Option LatestReleaseInfo → Text
tag_of none = units "未检查"
tag_of (some release) = text_or release.tag_name "未检查"

unfoldable pub versions : View → Texts → Versions
versions v t =
    let busy = v.is_checking || (v.is_upgrading || v.is_uploading_binary) in
    record {
      current = text_or t.current_version "unknown";
      state = get_upgrade_badge v.release;
      latest = tag_of v.release;
      channel =
          if v.can_upgrade
          then some (record {
            label = channel_label v.selected_channel;
            variant = elim v.selected_channel [ preview ↦ warning | stable ↦ info ];
            enabled = not busy;
          })
          else none;
      check = record { label = if v.is_checking then "检查中..." else "检查"; enabled = not busy };
    }

-- The card of a release, with its badges in their order; no time of publication is "未提供发布时间".
pub record ReleaseCard : Type 0 where
  pub channel : String
  pub tag_name : Text
  pub published : Option (Text × Text)
  pub badges : List BadgeMeta
  pub body : Text
  pub html_url : Text
  pub upgrade : Option Button

abbrev badge_if : Bool → String → Variant → List BadgeMeta
badge_if test label variant = if test then badge label variant ∷ [] else []

unfoldable pub release_badges : LatestReleaseInfo → List BadgeMeta
release_badges release =
    (if release.has_update then badge "发现新版本" warning else badge "已经是最新版本" success)
    ∷ (if release.prerelease then badge "Preview 发布" warning else badge "正式发布" info)
    ∷ (badge_if (not release.upgrade_supported) "当前平台不支持自动升级" danger
        ++ badge_if release.in_progress "升级任务执行中" warning)

unfoldable pub upgrade_label : View → LatestReleaseInfo → String
upgrade_label v release =
    if v.is_upgrading
    then "升级中..."
    else if release.in_progress
    then "升级中..."
    else elim v.selected_channel [ preview ↦ "升级预览版" | stable ↦ "升级正式版" ]

unfoldable pub release_card : (Text → Text × Text) → View → LatestReleaseInfo → ReleaseCard
release_card format v release = record {
  channel = channel_label v.selected_channel;
  tag_name = release.tag_name;
  published = if is_empty release.published_at then none else some (format release.published_at);
  badges = release_badges release;
  body = text_or release.body "暂无更新说明";
  html_url = release.html_url;
  upgrade =
      if not v.can_upgrade
      then none
      else some (record {
        label = upgrade_label v release;
        enabled = not (
            not release.has_update
            || (release.in_progress
                || (v.is_upgrading
                    || (not release.upgrade_supported
                        || (v.is_uploading_binary || v.is_confirming_manual_upgrade)))));
      });
}

pub data ReleasePanel : Type 0 where
  release_loading : ReleasePanel
  release_failed : Text → ReleasePanel
  -- "尚未检查" with the channel.
  unchecked : String → ReleasePanel
  release_shown : ReleaseCard → ReleasePanel

unfoldable pub release_panel : (Text → Text × Text) → View → Texts → ReleasePanel
release_panel format v t =
    if v.is_loading
    then release_loading
    else if v.has_release_error
    then release_failed t.release_error
    else elim v.release [
      | none ↦ unchecked (channel_label v.selected_channel)
      | some release ↦ release_shown (release_card format v release)
    ]

-- The log of the upgrade: none where there is no release, and no rows where it is empty.
unfoldable pub log_badge : LatestReleaseInfo → BadgeMeta
log_badge release = record {
  label =
      if str_eq release.upgrade_status "failed"
      then "升级失败"
      else if str_eq release.upgrade_status "succeeded"
      then "准备重启"
      else if release.in_progress
      then "升级中"
      else "空闲";
  variant =
      if str_eq release.upgrade_status "failed"
      then danger
      else if release.in_progress
      then warning
      else if str_eq release.upgrade_status "succeeded"
      then success
      else info;
}

pub record LogRow : Type 0 where
  pub timestamp : Text
  pub level : Text
  pub message : Text

unfoldable pub log_rows :
    (Text → Option DateParts) → (Text → Text) → LatestReleaseInfo → List LogRow
log_rows read_date upper release =
    map
      (λ log. record {
        timestamp = format_log_timestamp (read_date log.created_at);
        level = format_log_level upper log.level;
        message = log.message;
      })
      release.upgrade_logs

-- The card of the manual upgrade, for who may upgrade: the input of the file, and one button.
pub data ManualButton : Type 0 where
  confirm_button upload_button : Button → ManualButton

unfoldable pub manual_button : {File : Type 0} → View → Texts → Option File → ManualButton
manual_button v t file =
    if can_confirm_manual_upgrade v
    then confirm_button (record {
      label = if v.is_confirming_manual_upgrade then "升级中..." else "升级";
      enabled = not (
          not (can_confirm_manual_upgrade v)
          || (v.is_confirming_manual_upgrade || (v.is_uploading_binary || v.is_upgrading)));
    })
    else upload_button (record {
      label =
          if v.is_uploading_binary
          then (if leb 100 t.upload_progress then "服务端校验中..." else "上传中...")
          else "上传并检查";
      enabled =
          not (not (is_some file) || (v.is_uploading_binary || v.is_confirming_manual_upgrade));
    })

-- How far an upload is, while it runs.
unfoldable pub upload_bar : View → Texts → Option (String × ℕ)
upload_bar v t =
    if not v.is_uploading_binary
    then none
    else some
        (if leb 100 t.upload_progress then "已上传，正在服务端校验版本..." else "上传中...", t.upload_progress)

-- The message below: of an error, or else of the state.
pub data ManualNote : Type 0 where
  manual_failed manual_state : Text → ManualNote
  silent : ManualNote

unfoldable pub manual_note : Texts → ManualNote
manual_note t =
    if not (is_empty t.manual_error)
    then manual_failed t.manual_error
    else if not (is_empty t.manual_status)
    then manual_state t.manual_status
    else silent

-- The badges of an upload.
unfoldable pub binary_badges : UploadedServerBinaryInfo → List BadgeMeta
binary_badges binary =
    record {
      label =
          if binary.ready_to_upgrade then "可确认升级" else if binary.has_update then "待确认" else "不可升级";
      variant = if binary.ready_to_upgrade then warning else info;
    }
    ∷ badge_if (not binary.upgrade_supported) "当前版本不支持手动升级" danger
