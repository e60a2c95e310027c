-- ===== src/Desktop/Saving.antt =====
-- crates/oxide-ssh-desktop/src/app/editor.rs: opening, saving and closing the editor of a connection.
-- Saving spawns a task; what follows its answer is `profile_saved`.
use oxide_ssh.Prelude.{
  Bool, true, false, not, List, [], ◌∷◌, ◌++◌, Option, none, some, Result, ok, err, ◌==◌,
  if◌then◌else◌, any, retain, is_some,
}
use oxide_ssh.Model.Types.{Text, ProfileId, TagId, Tag, ConnectionProfile}
use oxide_ssh.Model.Text.{trim}
use oxide_ssh.Model.Validate.{Texts}
use oxide_ssh.Storage.Types.{AppConfig, StorageError}
use oxide_ssh.Storage.Files.{Codec, Io}
use oxide_ssh.Storage.Store.{AppStore}
use oxide_ssh.Credentials.Types.{CredentialTransactionError, SaveProfileRequest, SaveProfileOutcome}
use oxide_ssh.Desktop.Locale.{MessageId}
use oxide_ssh.Desktop.Messages.{
  form_error_message_id, transaction_error_message_id, tag_storage_error_message_id,
}
use oxide_ssh.Desktop.State.{AppState, create_tag, reload_config}
use oxide_ssh.Desktop.Form.{AuthMethod, ConnectionForm, FormError, new_form, edit, save_request}
use oxide_ssh.Desktop.Editor.{EditorId, ConnectionEditor}
use oxide_ssh.Desktop.View.{AppView, Task}
use oxide_ssh.Desktop.Identity.{in_editor}
use oxide_ssh.Desktop.Controls.{with_files}

-- `ConnectionEditor::new`, with the fresh UUID of the editor.
abbrev pub new_editor : EditorId → ConnectionForm → ConnectionEditor
new_editor fresh form = record { id = fresh; form = form; tag_name = [] }

-- `connect_secrets.insert(id, secret)`, where there is a secret.
abbrev pub with_secret : ProfileId → Option Text → List (ProfileId × Text) → List (ProfileId × Text)
with_secret id none secrets = secrets
with_secret id (some s) secrets = (id, s) ∷ retain (λ x. not (x.0 == id)) secrets

abbrev pub is_editor : EditorId → Option EditorId → Bool
is_editor id none = false
is_editor id (some other) = other == id

abbrev pub is_open : EditorId → Option ConnectionEditor → Bool
is_open id none = false
is_open id (some e) = e.id == id

-- The form with an authentication method: the field of the secret is emptied.
abbrev pub with_method : AuthMethod → ConnectionEditor → ConnectionEditor
with_method method e = record e { form = record e.form { auth_method = method; secret = [] } }

abbrev pub with_path : EditorId → Text → ConnectionEditor → ConnectionEditor
with_path id path e =
    if e.id == id then record e { form = record e.form { private_key_path = path } } else e

-- The new tag's place in the form, and the emptied field.
abbrev pub with_new_tag : TagId → ConnectionEditor → ConnectionEditor
with_new_tag id e = record e {
  form = record e.form {
    tag_ids =
        if any (λ t. t == id) e.form.tag_ids then e.form.tag_ids else e.form.tag_ids ++ id ∷ [];
  };
  tag_name = [];
}

module _ {T Q : Type 0} where
  unfoldable pub show_add_connection : AppView T Q → EditorId → ProfileId → AppView T Q
  unfolding new_form
  show_add_connection v fresh profile = record v {
    editor = some (new_editor fresh (new_form profile));
  }

  unfoldable pub show_edit_connection : AppView T Q → EditorId → ConnectionProfile → AppView T Q
  unfolding edit
  show_edit_connection v fresh p = record v {
    connect_secrets = retain (λ x. not (x.0 == p.id)) v.connect_secrets;
    editor = some (new_editor fresh (edit p));
  }

  unfoldable pub cancel_editor : AppView T Q → AppView T Q
  cancel_editor v = record v { editor = none }

  -- The answer of the dialog for files, for the editor that asked.
  unfoldable pub apply_browse_result : AppView T Q → EditorId → Text → AppView T Q
  apply_browse_result v id path = record v { editor = in_editor (with_path id path) v.editor }

  unfoldable pub select_auth_method : AppView T Q → AuthMethod → AppView T Q
  select_auth_method v method = record v { editor = in_editor (with_method method) v.editor }

  module _ ⦃texts : Texts⦄ where
    -- From the form's answer on; `coordinated` tells whether there is a coordinator.
    unfoldable pub save_requested :
        AppView T Q
        → EditorId
        → Bool
        → Result FormError SaveProfileRequest
        → AppView T Q × List Task
    save_requested v id coordinated (err e) =
        (record v { status_message = some (form_error_message_id e) }, [])
    save_requested v id false (ok request) =
        (record v { status_message = some MessageId.invalid_profile }, [])
    save_requested v id true (ok request) =
        (record v { saving_editor = some id }, Task.save_profile id request ∷ [])

    unfoldable pub save_in : AppView T Q → Bool → Option ConnectionEditor → AppView T Q × List Task
    unfolding save_requested
    save_in v coordinated none = (v, [])
    save_in v coordinated (some e) =
        if is_some v.saving_editor
        then (v, [])
        else save_requested v e.id coordinated (save_request e.form)

    unfoldable pub save_editor : AppView T Q → Bool → AppView T Q × List Task
    unfolding save_in
    save_editor v coordinated = save_in v coordinated v.editor

  -- `if this.saving_editor == Some(editor_id) { this.saving_editor = None; }`.
  unfoldable pub saving_done : AppView T Q → EditorId → AppView T Q
  saving_done v id = record v {
    saving_editor = if is_editor id v.saving_editor then none else v.saving_editor;
  }

  unfoldable pub with_connect_secret : AppView T Q → SaveProfileOutcome → AppView T Q
  with_connect_secret v outcome = record v {
    connect_secrets = with_secret outcome.profile.id outcome.connect_secret v.connect_secrets;
  }

  unfoldable pub close_saved : AppView T Q → EditorId → AppView T Q
  close_saved v id = record v {
    editor = if is_open id v.editor then none else v.editor;
    status_message = none;
  }

  module _ ⦃texts : Texts⦄ ⦃configs : Codec AppConfig⦄ where
    unfoldable pub reread_saved :
        AppView T Q → EditorId → AppState × Result StorageError (Unit {0}) → AppView T Q
    unfolding close_saved
    reread_saved v id (s, ok u) = close_saved (record v { state = some s }) id
    reread_saved v id (s, err e) = record v {
      state = some s;
      status_message = some MessageId.storage_corrupt;
    }

    unfoldable pub after_reload : Io → AppView T Q → EditorId → Option AppState → AppView T Q
    unfolding close_saved reread_saved
    after_reload sys v id none = close_saved v id
    after_reload sys v id (some s) = reread_saved v id (reload_config sys s)

    -- What follows the answer of the coordinator's `save_profile`, with the files as it left them.
    unfoldable pub profile_saved :
        Io
        → AppView T Q
        → EditorId
        → AppStore × Result CredentialTransactionError SaveProfileOutcome
        → AppView T Q
    unfolding saving_done with_connect_secret after_reload
    profile_saved sys v id (store, err e) = record (saving_done v id) {
      state = with_files store v.state;
      status_message = some (transaction_error_message_id e);
    }
    profile_saved sys v id (store, ok outcome) =
        after_reload sys (with_connect_secret (saving_done v id) outcome) id
          (with_files store v.state)

    abbrev pub tag_made :
        AppView T Q → AppState × Result StorageError Tag → AppView T Q × Option Tag
    tag_made v (s, ok t) =
        (record v { state = some s; editor = in_editor (with_new_tag t.id) v.editor }, some t)
    tag_made v (s, err e) =
        (record v { state = some s; status_message = some (tag_storage_error_message_id e) }, none)

    abbrev pub make_tag :
        Io → AppView T Q → TagId → Text → Option AppState → AppView T Q × Option Tag
    make_tag sys v fresh name none = (v, none)
    make_tag sys v fresh [] (some s) = (v, none)
    make_tag sys v fresh (c ∷ cs) (some s) = tag_made v (create_tag sys s fresh (c ∷ cs) none)

    unfoldable pub create_tag_from_editor : Io → AppView T Q → TagId → AppView T Q × Option Tag
    create_tag_from_editor sys v fresh = elim v.editor [
      | none ↦ (v, none)
      | some e ↦ make_tag sys v fresh (trim e.tag_name) v.state
    ]
