-- ===== src/Tests/Saving.antt =====
-- Saves of the settings page at a concrete server.
use poolx.Common.{List, [], ◌∷◌, none, All, ◌≡◌, refl, string_eq}
use poolx.Common.Int.{parse_int, digits_from}
use poolx.Common.Number.{print, digits_with}
use poolx.Common.Text.{units, trim, trim_end, trim_start, is_space}
use poolx.Settings.Fields.{SystemFields, default_system_fields}
use poolx.Settings.Entries.{
  Entries, check_clash, host_port_from, is_host_port, passed, refused, check_timeout, clash_error,
  is_mode, clash_entries,
}
use poolx.Settings.Actions.{State, Effect, initial, said}
use poolx.Settings.Page.Step.{
  options_loaded, press_clash, press_system, save_clash, save_smtp, save_integrations,
}
use poolx.Settings.Server.{OptionMap, list_editable_options, serve}
use poolx.Settings.Server.Laws.{serve-IsMap}
use poolx.Settings.Server.Saving.{answered, press_clash-reloaded}
use poolx.Settings.Server.Secrets.{IsHidden, IsErased, integration_secrets, saves-IsErased}
use poolx.Tests.Settings.{view}

-- What the server keeps at first.
abbrev kept : OptionMap
kept =
    ("SMTPToken", units "t0ken")
    ∷ ("ClashMode", units "rule")
    ∷ ("GitHubClientSecret", units "s3cret")
    ∷ []

abbrev clash_form : SystemFields
clash_form = record default_system_fields { clash_mode = units " global " }

abbrev clash_sent : Entries
clash_sent =
    ("KernelType", units "mihomo")
    ∷ ("KernelAutoStart", units "false")
    ∷ ("ClashAllowLAN", units "false")
    ∷ ("ClashExternalController", units "127.0.0.1:19090")
    ∷ ("ClashMode", units "global")
    ∷ ("ClashSecret", units "3ebc195c9fbe81c01eb9299e3c6bf644")
    ∷ ("NodeTestDefaultURL", units "https://cp.cloudflare.com/generate_204")
    ∷ ("NodeTestDefaultTimeoutMS", units "8000")
    ∷ []

clash-passed : check_clash clash_form ≡ passed clash_sent
unfolding check_clash check_timeout parse_int trim_start is_space digits_from clash_error trim
    trim_end is_host_port host_port_from is_mode clash_entries print digits_with
clash-passed = refl

-- A timeout of a minute and more is refused.
timeout-refused :
    check_clash (record clash_form { node_test_default_timeout_ms = units "60001" })
    ≡ refused "默认测速超时不能超过 60000 毫秒。"
unfolding check_clash check_timeout parse_int trim_start is_space digits_from
timeout-refused = refl

abbrev filled : State
filled = record initial { system_fields = clash_form }

abbrev ending : State × List Effect
ending = answered 10 filled (press_clash view save_clash filled)

press_clash-reloaded_example :
    (ending.0 ≡ record (said "Clash 设置已保存。" filled) { busy_key = none })
    × (check_clash
          (options_loaded view (list_editable_options (serve kept ending.1)) ending.0).system_fields
        ≡ passed clash_sent)
press_clash-reloaded_example =
    press_clash-reloaded view filled ending.0 ending.1 clash_sent kept (serve kept ending.1)
      clash-passed refl (serve-IsMap kept ending.1 (refl, (refl, (refl, tt)))) (λ k. refl)

-- The form as it was loaded, with another account.
abbrev loaded : State
loaded = options_loaded view (list_editable_options kept) initial

abbrev typed : State
typed = record loaded {
  system_fields = record loaded.system_fields { smtp_account = units "a@b.c" };
}

saves-IsErased_example :
    All (IsHidden kept) ("SMTPToken" ∷ integration_secrets)
    × IsErased (serve kept (answered 6 typed (press_system save_smtp typed)).1) "SMTPToken"
    × All
        (IsErased (serve kept (answered 9 typed (press_system save_integrations typed)).1))
        integration_secrets
saves-IsErased_example =
    saves-IsErased view initial kept typed.system_fields (refl, (refl, (refl, tt)))
      (refl, refl, refl, refl)
