-- ===== src/Update/Screen/Laws.antt =====
-- The buttons of the dialog against its handlers.
use poolx.Common.{
  ◌&&◌, Bool, false, not, Option, none, some, ◌≡◌, refl, arith, is_empty, Option-cases, inl, inr,
}
use poolx.Common.Text.{Text}
use poolx.Dates.Stamp.{DateParts, format_date_time_with_milliseconds}
use poolx.Update.{
  Event, View, channel_clicked, check_clicked, confirm_clicked, confirm_enabled, step,
  upgrade_clicked, upgrade_enabled, upload_clicked,
}
use poolx.Update.Screen.{
  Button, ChannelBadge, ManualButton, ReleasePanel, Texts, confirm_button, format_log_timestamp,
  manual_button, release_card, release_panel, release_shown, upload_button, versions,
}

-- A time of the log has the format of the other times with milliseconds.
format_log_timestamp-same :
    (d : DateParts) → format_log_timestamp (some d) ≡ format_date_time_with_milliseconds (some d)
unfolding format_log_timestamp format_date_time_with_milliseconds
format_log_timestamp-same d = refl

abbrev channel_enabled : Option ChannelBadge → Bool
channel_enabled none = false
channel_enabled (some b) = b.enabled

abbrev enabled_of : Option Button → Bool
enabled_of none = false
enabled_of (some b) = b.enabled

-- A button of a panel, and of the manual upgrade; one that is not shown cannot be clicked.
abbrev upgrade_of : ReleasePanel → Bool
upgrade_of (release_shown card) = enabled_of card.upgrade
upgrade_of _ = false

abbrev confirm_of : ManualButton → Bool
confirm_of (confirm_button b) = b.enabled
confirm_of _ = false

abbrev upload_of : ManualButton → Bool
upload_of (upload_button b) = b.enabled
upload_of _ = false

module _ {File : Type 0} (v : View) (t : Texts) (file : Option File) where
  abbrev Calls : Event File → Bool → Type 0
  Calls e enabled = is_empty (step v file e).1 ≡ not enabled

  channel-Calls : Calls channel_clicked (channel_enabled (versions v t).channel)
  unfolding step versions
  channel-Calls = ground arith

  check-Calls : Calls check_clicked (versions v t).check.enabled
  unfolding step versions
  check-Calls = ground arith

  upgrade-Calls :
      (format : Text → Text × Text) → Calls upgrade_clicked (upgrade_of (release_panel format v t))
  unfolding step release_panel release_card upgrade_enabled
  upgrade-Calls format = elim (Option-cases v.release) [
    | inl e ↦ ground (arith, e)
    | inr (release, e) ↦ ground (arith, e)
  ]

  confirm-Calls : Calls confirm_clicked (v.can_upgrade && confirm_of (manual_button v t file))
  unfolding step manual_button confirm_enabled
  confirm-Calls = ground arith

  upload-Calls : Calls upload_clicked (v.can_upgrade && upload_of (manual_button v t file))
  unfolding step manual_button
  upload-Calls = elim (Option-cases file) [
    | inl e ↦ ground (arith, e)
    | inr (chosen, e) ↦ ground (arith, e)
  ]

  -- Every button of the dialog is enabled exactly where a click on it calls back.
  screen-Calls :
      (format : Text → Text × Text)
      → Calls channel_clicked (channel_enabled (versions v t).channel)
        × Calls check_clicked (versions v t).check.enabled
        × Calls upgrade_clicked (upgrade_of (release_panel format v t))
        × Calls confirm_clicked (v.can_upgrade && confirm_of (manual_button v t file))
        × Calls upload_clicked (v.can_upgrade && upload_of (manual_button v t file))
  screen-Calls format =
      (channel-Calls, check-Calls, upgrade-Calls format, confirm-Calls, upload-Calls)
