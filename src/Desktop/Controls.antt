-- ===== src/Desktop/Controls.antt =====
-- crates/oxide-ssh-desktop/src/app/mod.rs, session.rs and tags.rs: the commands of the view: the next
-- tab, a key for the terminal, the deletion of a tag, and the answer to a confirmation. Two calls of the
-- system stand where the second reads what the first left.
use oxide_ssh.Prelude.{
  ℕ, ◌+◌, ◌-◌, ◌%◌, ◌==◌, Bool, true, false, List, [], ◌∷◌, Option, none, some, Result, ok, err,
  if◌then◌else◌, ltb, length, position, get_elem?, find, retain, not,
}
use oxide_ssh.Model.Types.{ProfileId, TagId, ConnectionProfile}
use oxide_ssh.Model.Validate.{Texts}
use oxide_ssh.Session.Handle.{Channel}
use oxide_ssh.Storage.Types.{AppConfig, KnownHosts, StorageError}
use oxide_ssh.Storage.Files.{Codec, Io}
use oxide_ssh.Storage.Store.{AppStore}
use oxide_ssh.Credentials.Types.{CredentialTransactionError}
use oxide_ssh.Terminal.Types.{Emulator}
use oxide_ssh.Input.Keys.{KeyInput, key_input, with_shift}
use oxide_ssh.Input.Keys as Input
use oxide_ssh.Tabs.Modals.{TabId}
use oxide_ssh.Tabs.Tab.{Tab, TabLocalError, send_key}
use oxide_ssh.Tabs.Collection.{TabCollection, has_id, tab, update_tab, set_active, disconnect_all}
use oxide_ssh.Desktop.Locale.{MessageId}
use oxide_ssh.Desktop.Messages.{
  local_error_message_id, transaction_error_message_id, tag_storage_error_message_id,
}
use oxide_ssh.Desktop.State.{AppState, profiles_with_tag, delete_known_host, reload_config}
use oxide_ssh.Desktop.State as State
use oxide_ssh.Desktop.Editor.{TagManager, without_entry, without_tag_id}
use oxide_ssh.Desktop.View.{AppView, MainView, ConfirmAction, Task}
use oxide_ssh.Desktop.Identity.{in_editor}
use oxide_ssh.Desktop.Dialogs.{close_tab}

-- The place to go to from `current` among `count` tabs.
unfoldable pub next_place : Bool → ℕ → ℕ → ℕ
next_place true current count = if current == 0 then count - 1 else current - 1
next_place false current count = (current + 1) % count

-- `status_message == Some(InputQueueFull)`, and the message after it is cleared.
abbrev pub without_queue_full : Option MessageId → Option MessageId
without_queue_full (some MessageId.input_queue_full) = none
without_queue_full message = message

abbrev pub without_entry_in : TagId → Option TagManager → Option TagManager
without_entry_in id none = none
without_entry_in id (some m) = some (without_entry id m)

abbrev pub profile_of : Option AppState → ProfileId → Option ConnectionProfile
profile_of none id = none
profile_of (some s) id = find (λ p. p.id == id) s.config.profiles

unfoldable pub is_used : Option AppState → TagId → Bool
unfolding profiles_with_tag
is_used none id = false
is_used (some s) id = ltb 0 (length (profiles_with_tag s id))

abbrev pub with_files : AppStore → Option AppState → Option AppState
with_files store none = none
with_files store (some s) = some (record s { store = store })

-- `unwrap_or(0)`.
abbrev pub or_first : Option ℕ → ℕ
or_first none = 0
or_first (some i) = i

module _ {T Q : Type 0} where
  abbrev pub place_of : TabCollection T Q → Option TabId → ℕ
  place_of c none = 0
  place_of c (some id) = or_first (position (has_id id) c.tabs)

  abbrev pub activated : AppView T Q → Option (Tab T Q) → Option (AppView T Q)
  activated v none = none
  activated v (some t) =
      some (record v { tabs = (set_active v.tabs t.id).0; main_view = MainView.sessions })

  -- `none` is the panic of an index out of range.
  unfoldable pub cycle_tab : AppView T Q → Bool → Option (AppView T Q)
  unfolding next_place
  cycle_tab v backwards =
      if ltb (length v.tabs.tabs) 2
      then some v
      else activated v (
          get_elem? v.tabs.tabs
            (next_place backwards (place_of v.tabs v.tabs.active) (length v.tabs.tabs)))

  unfoldable pub handle_tag_deleted : AppView T Q → TagId → AppView T Q
  handle_tag_deleted v id = record v {
    tag_manager = without_entry_in id v.tag_manager;
    editor = in_editor (without_tag_id id) v.editor;
  }

  module _ ⦃channel : Channel Q⦄ where
    unfoldable pub on_close_tab : AppView T Q → AppView T Q
    on_close_tab v = elim v.tabs.active [ none ↦ v | some id ↦ close_tab v id ]

    module _ ⦃em : Emulator T⦄ where
      abbrev pub key_sent :
          AppView T Q → TabId → Tab T Q × Result TabLocalError (Unit {0}) → AppView T Q
      key_sent v id (t, ok u) = record v {
        tabs = update_tab v.tabs id (λ old. t);
        status_message = without_queue_full v.status_message;
      }
      key_sent v id (t, err e) = record v {
        tabs = update_tab v.tabs id (λ old. t);
        status_message = some (local_error_message_id e);
      }

      abbrev pub key_to : AppView T Q → KeyInput → Option TabId → AppView T Q
      key_to v input none = v
      key_to v input (some id) = elim (tab v.tabs id) [
        | none ↦ v
        | some t ↦ key_sent v id (send_key t input)
      ]

      unfoldable pub send_terminal_input : AppView T Q → KeyInput → AppView T Q
      send_terminal_input v input = key_to v input v.tabs.active

      unfoldable pub on_terminal_tab : AppView T Q → AppView T Q
      unfolding send_terminal_input
      on_terminal_tab v = send_terminal_input v (key_input Input.tab)

      unfoldable pub on_terminal_shift_tab : AppView T Q → AppView T Q
      unfolding send_terminal_input
      on_terminal_shift_tab v = send_terminal_input v (with_shift (key_input Input.tab))

  module _ ⦃texts : Texts⦄ ⦃configs : Codec AppConfig⦄ where
    abbrev pub tag_dropped :
        AppView T Q → TagId → AppState × Result StorageError (Unit {0}) → AppView T Q
    unfolding handle_tag_deleted
    tag_dropped v id (s, ok u) = handle_tag_deleted (record v { state = some s }) id
    tag_dropped v id (s, err e) = record v {
      state = some s;
      status_message = some (tag_storage_error_message_id e);
    }

    unfoldable pub delete_tag : Io → AppView T Q → TagId → AppView T Q
    delete_tag sys v id = elim v.state [
      | none ↦ v
      | some s ↦ tag_dropped v id (State.delete_tag sys s id)
    ]

    unfoldable pub request_tag_delete : Io → AppView T Q → TagId → AppView T Q
    unfolding delete_tag is_used
    request_tag_delete sys v id =
        if is_used v.state id
        then record v { confirm = some (ConfirmAction.delete_tag id) }
        else delete_tag sys v id

    abbrev pub reread : AppView T Q → AppState × Result StorageError (Unit {0}) → AppView T Q
    reread v (s, ok u) = record v { state = some s }
    reread v (s, err e) = record v {
      state = some s;
      status_message = some MessageId.storage_corrupt;
    }

    -- The task `delete_credentials`, from the answer of the coordinator's `delete_profile` on, with the
    -- files as it left them.
    unfoldable pub profile_deleted :
        Io → AppView T Q → AppStore × Result CredentialTransactionError (Unit {0}) → AppView T Q
    profile_deleted sys v (store, err e) = record v {
      state = with_files store v.state;
      status_message = some (transaction_error_message_id e);
    }
    profile_deleted sys v (store, ok u) = elim (with_files store v.state) [
      | none ↦ v
      | some s ↦ reread v (reload_config sys s)
    ]

    abbrev pub deleting :
        AppView T Q → ProfileId → Bool → Option ConnectionProfile → AppView T Q × List Task
    deleting v id coordinated none = (v, [])
    deleting v id false (some p) = (
      record v {
        connect_secrets = retain (λ s. not (s.0 == id)) v.connect_secrets;
        status_message = some MessageId.invalid_profile;
      },
      [],
    )
    deleting v id true (some p) = (
      record v { connect_secrets = retain (λ s. not (s.0 == id)) v.connect_secrets },
      Task.delete_credentials p ∷ [],
    )

    module _ ⦃channel : Channel Q⦄ ⦃hosts : Codec KnownHosts⦄ where
      abbrev pub host_dropped : AppView T Q → AppState × Result StorageError Bool → AppView T Q
      host_dropped v (s, ok found) = record v { state = some s }
      host_dropped v (s, err e) = record v {
        state = some s;
        status_message = some MessageId.storage_corrupt;
      }

      abbrev pub ended : AppView T Q → AppView T Q
      ended v = record v { quitting = true; tabs = disconnect_all v.tabs }

      -- The function behind `confirm.take()`; `coordinated` tells whether there is a coordinator.
      abbrev pub confirmed : Io → Io → Bool → AppView T Q → ConfirmAction → AppView T Q × List Task
      unfolding delete_tag
      confirmed sys again coordinated v (ConfirmAction.delete_profile id) =
          deleting v id coordinated (profile_of v.state id)
      confirmed sys again coordinated v (ConfirmAction.delete_host endpoint) = elim v.state [
        | none ↦ (v, [])
        | some s ↦ (host_dropped v (delete_known_host sys again s endpoint), [])
      ]
      confirmed sys again coordinated v (ConfirmAction.delete_tag id) = (delete_tag sys v id, [])
      confirmed sys again coordinated v ConfirmAction.quit = (ended v, Task.remove_window ∷ [])
      confirmed sys again coordinated v ConfirmAction.quit_app = (ended v, Task.exit ∷ [])

      unfoldable pub perform_confirm : Io → Io → Bool → AppView T Q → AppView T Q × List Task
      perform_confirm sys again coordinated v = elim v.confirm [
        | none ↦ (v, [])
        | some action ↦ confirmed sys again coordinated (record v { confirm = none }) action
      ]
