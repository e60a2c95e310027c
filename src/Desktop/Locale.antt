-- ===== src/Desktop/Locale.antt =====
-- crates/oxide-ssh-desktop/src/i18n/mod.rs: `MessageId` and the choice of a locale.
use oxide_ssh.Prelude.{◌||◌, [], ◌∷◌, Option, none, some, ◌==◌, if◌then◌else◌}
use oxide_ssh.Model.Types.{Text, LocaleSetting}
use oxide_ssh.Model.Text.{text_eq, to_ascii_lowercase}
use oxide_ssh.Desktop.Filter.{starts_with}

pub data MessageId : Type 0 where
  app_name search_connections add_connection no_connections no_search_results : MessageId
  workspace all_hosts tags untagged manage_tags new_tag create hosts keychain : MessageId
  port_forwarding snippets known_hosts logs new_host local_terminal new_tab_button : MessageId
  settings general appearance security language theme trusted_hosts system light : MessageId
  english simplified_chinese dark delete retry quit new_window : MessageId
  open_config_directory storage_corrupt no_trusted_hosts close copy name host : MessageId
  port username auth_method password private_key agent remember passphrase browse : MessageId
  cancel save agent_description credential_required connect connect_once edit : MessageId
  confirm_delete_profile confirm_delete_host confirm_delete_tag confirm_close_tab : MessageId
  confirm_quit connecting verifying_host_key authenticating opening_shell : MessageId
  connected disconnected awaiting_host_key awaiting_secret unknown_host_key : MessageId
  changed_host_key expected_fingerprint presented_fingerprint reject : MessageId
  accept_and_store open_trusted_hosts bell input_queue_full paste_too_large : MessageId
  credential_unavailable credential_access_denied credential_invalid_reference : MessageId
  credential_corrupt credential_ambiguous credential_unsupported invalid_profile : MessageId
  tag_exists invalid_tag_name connect_timeout connect_failed host_key_rejected : MessageId
  host_key_changed host_key_store_failed private_key_unreadable : MessageId
  private_key_passphrase_rejected agent_unavailable agent_empty : MessageId
  authentication_rejected pty_rejected session_closed shell_rejected : MessageId
  local_shell_failed : MessageId

pub data ResolvedLocale : Type 0 where
  en_us zh_cn : ResolvedLocale

-- `replace('_', "-")`.
abbrev pub with_dashes : Text → Text
with_dashes [] = []
with_dashes (c ∷ cs) = (if c == b'_' then b'-' else c) ∷ with_dashes cs

abbrev pub or_empty : Option Text → Text
or_empty none = []
or_empty (some s) = s

abbrev pub locale_of : Text → ResolvedLocale
locale_of s =
    if text_eq s (b'z' ∷ b'h' ∷ []) || starts_with s (b'z' ∷ b'h' ∷ b'-' ∷ [])
    then ResolvedLocale.zh_cn
    else ResolvedLocale.en_us

unfoldable pub resolve_locale : LocaleSetting → Option Text → ResolvedLocale
resolve_locale LocaleSetting.en_us system_locale = ResolvedLocale.en_us
resolve_locale LocaleSetting.zh_cn system_locale = ResolvedLocale.zh_cn
resolve_locale LocaleSetting.system system_locale =
    locale_of (to_ascii_lowercase (with_dashes (or_empty system_locale)))
