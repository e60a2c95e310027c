-- ===== src/Desktop/Messages.antt =====
-- crates/oxide-ssh-desktop/src/app/messages.rs: the message that each error and state is shown by.
use oxide_ssh.Prelude.{Bool, true, false}
use oxide_ssh.Model.Types.{password, ConnectionProfile}
use oxide_ssh.Session.Events.{SessionError}
use oxide_ssh.Storage.Types.{StorageError}
use oxide_ssh.Tabs.Tab.{DisconnectReason, TabState, TabLocalError}
use oxide_ssh.Credentials.Types.{CredentialError, CredentialTransactionError}
use oxide_ssh.Desktop.Form.{FormError}
use oxide_ssh.Desktop.Locale.{MessageId}

-- crates/oxide-ssh-desktop/src/credentials.rs.
unfoldable pub credential_error_message_id : CredentialError → MessageId
credential_error_message_id CredentialError.unavailable = MessageId.credential_unavailable
credential_error_message_id CredentialError.access_denied = MessageId.credential_access_denied
credential_error_message_id CredentialError.invalid_reference =
    MessageId.credential_invalid_reference
credential_error_message_id CredentialError.corrupt = MessageId.credential_corrupt
credential_error_message_id CredentialError.ambiguous = MessageId.credential_ambiguous
credential_error_message_id CredentialError.unsupported = MessageId.credential_unsupported

unfoldable pub requires_one_time_secret : ConnectionProfile → Bool
requires_one_time_secret p = elim p.auth [ password reference ↦ true | _ ↦ false ]

unfoldable pub session_error_message_id : SessionError → MessageId
session_error_message_id SessionError.invalid_profile = MessageId.invalid_profile
session_error_message_id SessionError.connect_timeout = MessageId.connect_timeout
session_error_message_id SessionError.host_key_rejected = MessageId.host_key_rejected
session_error_message_id SessionError.host_key_changed = MessageId.host_key_changed
session_error_message_id SessionError.host_key_store_failed = MessageId.host_key_store_failed
session_error_message_id SessionError.credential_unavailable = MessageId.credential_unavailable
session_error_message_id SessionError.private_key_unreadable = MessageId.private_key_unreadable
session_error_message_id SessionError.private_key_passphrase_rejected =
    MessageId.private_key_passphrase_rejected
session_error_message_id SessionError.agent_unavailable = MessageId.agent_unavailable
session_error_message_id SessionError.agent_empty = MessageId.agent_empty
session_error_message_id SessionError.authentication_rejected = MessageId.authentication_rejected
session_error_message_id SessionError.pty_rejected = MessageId.pty_rejected
session_error_message_id SessionError.shell_rejected = MessageId.shell_rejected
session_error_message_id SessionError.local_shell_failed = MessageId.local_shell_failed
session_error_message_id SessionError.connect_failed = MessageId.connect_failed
session_error_message_id SessionError.disconnected = MessageId.connect_failed
session_error_message_id SessionError.private_key_passphrase_required =
    MessageId.credential_required

unfoldable pub transaction_error_message_id : CredentialTransactionError → MessageId
unfolding credential_error_message_id
transaction_error_message_id (CredentialTransactionError.credential e) =
    credential_error_message_id e
transaction_error_message_id (CredentialTransactionError.storage e) = MessageId.storage_corrupt
transaction_error_message_id _ = MessageId.invalid_profile

unfoldable pub tag_storage_error_message_id : StorageError → MessageId
tag_storage_error_message_id (StorageError.duplicate_tag_name name) = MessageId.tag_exists
tag_storage_error_message_id (StorageError.invalid_tag e) = MessageId.invalid_tag_name
tag_storage_error_message_id _ = MessageId.storage_corrupt

unfoldable pub local_error_message_id : TabLocalError → MessageId
local_error_message_id TabLocalError.input_queue_full = MessageId.input_queue_full
local_error_message_id TabLocalError.input_closed = MessageId.session_closed
local_error_message_id TabLocalError.paste_too_large = MessageId.paste_too_large
local_error_message_id TabLocalError.invalid_terminal_size = MessageId.invalid_profile

unfoldable pub tab_state_message_id : TabState → MessageId
tab_state_message_id TabState.connecting = MessageId.connecting
tab_state_message_id TabState.awaiting_host_key = MessageId.awaiting_host_key
tab_state_message_id TabState.awaiting_secret = MessageId.awaiting_secret
tab_state_message_id TabState.connected = MessageId.connected
tab_state_message_id (TabState.disconnected reason) = MessageId.disconnected

unfoldable pub disconnect_reason_message_id : DisconnectReason → MessageId
unfolding session_error_message_id
disconnect_reason_message_id (DisconnectReason.session e) = session_error_message_id e
disconnect_reason_message_id (DisconnectReason.exit status) = MessageId.disconnected
disconnect_reason_message_id DisconnectReason.closed = MessageId.disconnected

unfoldable pub form_error_message_id : FormError → MessageId
form_error_message_id FormError.name = MessageId.name
form_error_message_id FormError.host = MessageId.host
form_error_message_id FormError.username = MessageId.username
form_error_message_id FormError.port = MessageId.port
form_error_message_id FormError.private_key_path = MessageId.private_key
