-- ===== src/Settings/Server/Secrets.antt =====
-- The secrets of the settings page: the server does not show them, the page loads their fields
-- empty, and the hints beside the fields say that an empty one keeps what is stored.
use poolx.Common.{List, [], ◌∷◌, none, some, String, string_eq, ◌≡◌, refl, sym, ◌∙◌, All}
use mathlib.Core.Path.{subst}
use poolx.Common.Text.{includes, starts_with, trim, trim_end, trim_start}
use poolx.Settings.Fields.{SystemFields}
use poolx.Settings.Options.{get_entry, load_system, options_to_map}
use poolx.Settings.Entries.{integration_entries, smtp_entries}
use poolx.Settings.Actions.{State}
use poolx.Settings.Page.{View}
use poolx.Settings.Page.Step.{options_loaded, press_system, save_integrations, save_smtp}
use poolx.Settings.Server.{OptionMap, is_listed, list_editable_options, serve}
use poolx.Settings.Server.Laws.{IsMap, get_entry-list, serve-entries}
use poolx.Settings.Server.Saving.{answered, run_save-saved, saved, serve-answered}

-- The keys of the three secrets that are saved together.
abbrev pub integration_secrets : List String
integration_secrets = "GitHubClientSecret" ∷ "WeChatServerToken" ∷ "TurnstileSecretKey" ∷ []

-- The fields of the secrets are as in another form.
abbrev pub SameSecrets : SystemFields → SystemFields → Type 0
SameSecrets f g =
    (f.smtp_token ≡ g.smtp_token)
    × (f.github_client_secret ≡ g.github_client_secret)
    × (f.wechat_server_token ≡ g.wechat_server_token)
    × (f.turnstile_secret_key ≡ g.turnstile_secret_key)

abbrev pub IsHidden : OptionMap → String → Type 0
IsHidden options key = get_entry key (options_to_map (some (list_editable_options options))) ≡ none

abbrev pub IsErased : OptionMap → String → Type 0
IsErased options key = get_entry key options ≡ some []

secrets-IsHidden :
    (options : OptionMap)
    → IsMap options
    → All (IsHidden options) ("SMTPToken" ∷ integration_secrets)
unfolding is_listed includes starts_with
secrets-IsHidden options m = (
  get_entry-list "SMTPToken" options m,
  (
    get_entry-list "GitHubClientSecret" options m,
    (
      get_entry-list "WeChatServerToken" options m,
      (get_entry-list "TurnstileSecretKey" options m, tt),
    ),
  ),
)

trim_empty : trim [] ≡ []
unfolding trim trim_end trim_start
trim_empty = refl

-- The two buttons, where the fields of their secrets are empty.
module _ (s : State) (options : OptionMap) where
  press_smtp-saved :
      answered 6 s (press_system save_smtp s) ≡ saved "SMTP 设置已保存。" (smtp_entries s.system_fields) s
  unfolding press_system smtp_entries
  press_smtp-saved = run_save-saved "system-smtp" "SMTP 设置已保存。" _ _ s

  press_integrations-saved :
      answered 9 s (press_system save_integrations s)
      ≡ saved "第三方集成设置已保存。" (integration_entries s.system_fields) s
  unfolding press_system integration_entries
  press_integrations-saved = run_save-saved "system-integrations" "第三方集成设置已保存。" _ _ s

  smtp-IsErased :
      s.system_fields.smtp_token ≡ []
      → IsErased (serve options (answered 6 s (press_system save_smtp s)).1) "SMTPToken"
  unfolding smtp_entries
  smtp-IsErased e =
      let (_, (_, (_, (kept, _)))) =
        serve-entries (smtp_entries s.system_fields) options (refl, (refl, (refl, (refl, tt)))) in
      subst (λ o. IsErased o "SMTPToken")
        (sym (
          serve-answered 6 _ (smtp_entries s.system_fields) s (press_system save_smtp s) options
            press_smtp-saved))
        (kept ∙ rw (e, trim_empty) refl)

  integrations-IsErased :
      s.system_fields.github_client_secret ≡ []
      → s.system_fields.wechat_server_token ≡ []
      → s.system_fields.turnstile_secret_key ≡ []
      → All
          (IsErased (serve options (answered 9 s (press_system save_integrations s)).1))
          integration_secrets
  unfolding integration_entries
  integrations-IsErased a b c =
      let (_, (g, (_, (w, (_, (_, (t, _))))))) =
        serve-entries (integration_entries s.system_fields) options
          (refl, (refl, (refl, (refl, (refl, (refl, (refl, tt))))))) in
      subst (λ o. All (IsErased o) integration_secrets)
        (sym (
          serve-answered 9 _ (integration_entries s.system_fields) s
            (press_system save_integrations s) options press_integrations-saved))
        (
          g ∙ rw (a, trim_empty) refl,
          (w ∙ rw (b, trim_empty) refl, (t ∙ rw (c, trim_empty) refl, tt)),
        )

-- An empty field of a secret does not keep the secret, though the hints beside the fields say so: the
-- server shows none of the four; and whatever the page has loaded from it and whatever was typed
-- since, where the fields of the secrets are as they were loaded, a save of the mail settings leaves
-- an empty token on the server, and one of the integrations three empty secrets, whatever was stored
-- before. The requests of the save succeed, and nothing else happens meanwhile.
pub saves-IsErased :
    (v : View) (s : State) (options : OptionMap) (f : SystemFields)
    → IsMap options
    → SameSecrets f (options_loaded v (list_editable_options options) s).system_fields
    → let typed = record (options_loaded v (list_editable_options options) s) {
      system_fields = f;
    } in
      All (IsHidden options) ("SMTPToken" ∷ integration_secrets)
      × IsErased (serve options (answered 6 typed (press_system save_smtp typed)).1) "SMTPToken"
      × All
          (IsErased (serve options (answered 9 typed (press_system save_integrations typed)).1))
          integration_secrets
unfolding options_loaded load_system
saves-IsErased v s options f m (a, b, c, d) =
    let typed = record (options_loaded v (list_editable_options options) s) { system_fields = f } in
    (
      secrets-IsHidden options m,
      smtp-IsErased typed options a,
      integrations-IsErased typed options b c d,
    )
