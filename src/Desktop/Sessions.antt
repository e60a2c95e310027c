-- ===== src/Desktop/Sessions.antt =====
-- crates/oxide-ssh-desktop/src/app/session.rs: how sessions start. A call returns the view and the tasks
-- that it spawns; `none` is a panic. The SSH service and the local shell are what they answer, the
-- terminal's estimated size and the theme's colours are arguments, and so are fresh UUIDs.
use oxide_ssh.Prelude.{
  Bool, true, false, not, ◌&&◌, List, [], ◌∷◌, Option, none, some, Result, ok, err, ◌==◌,
  if◌then◌else◌, is_some, is_some_and, any, head?, retain,
}
use oxide_ssh.Model.Types.{
  Uuid, Text, ProfileId, CredentialRef, AuthConfig, private_key, ConnectionProfile,
}
use oxide_ssh.Model.Types as Model
use oxide_ssh.Session.Events.{error, SessionError}
use oxide_ssh.Session.Handle.{Channel, Handle}
use oxide_ssh.Credentials.Types.{CredentialError, credential_reference}
use oxide_ssh.Terminal.Types.{TerminalSize, TerminalColors, Emulator}
use oxide_ssh.Terminal.Model.{as_u32}
use oxide_ssh.Tabs.Modals.{TabId, is_secret_for, complete_current_if, ModalRequest, ModalQueue}
use oxide_ssh.Tabs.Tab.{Tab, TabKind}
use oxide_ssh.Tabs.Tab as TabOps
use oxide_ssh.Tabs.Collection.{
  TabCollection, tab, update_tab, open_tab, open_local, request_secret, prepare_reconnect,
}
use oxide_ssh.Tabs.Collection as Tabs
use oxide_ssh.Desktop.Locale.{MessageId}
use oxide_ssh.Desktop.Messages.{session_error_message_id, requires_one_time_secret}
use oxide_ssh.Desktop.View.{AppView, MainView, Task, read_keyring, preflight, pump}
use oxide_ssh.Desktop.Handlers.{secret_requested}

-- crates/oxide-ssh-core/src/session.rs.
pub record ConnectRequest : Type 0 where
  pub profile : ConnectionProfile
  pub secret : Option Text
  pub initial_size : Model.TerminalSize

abbrev pub kind_profile : TabKind → Option ConnectionProfile
kind_profile (TabKind.ssh p) = some p
kind_profile TabKind.local = none

abbrev pub core_size : TerminalSize → Model.TerminalSize
core_size size = record {
  columns = as_u32 size.columns;
  rows = as_u32 size.rows;
  pixel_width = size.pixel_width;
  pixel_height = size.pixel_height;
}

-- The path of a key that is tested first: one with no passphrase, stored or given.
abbrev pub preflight_path : AuthConfig → Option Text → Option Text
preflight_path (private_key path none) none = some path
preflight_path _ _ = none

-- `connect_secrets.remove(&profile.id)`: what is found, and what is left.
abbrev pub find_secret : ProfileId → List (ProfileId × Text) → Option Text
find_secret id [] = none
find_secret id ((p, s) ∷ rest) = if p == id then some s else find_secret id rest

-- `Ok(secret) => secret`, where there is no secret from before.
abbrev pub chosen_secret : Option Text → Result CredentialError (Option Text) → Option (Option Text)
chosen_secret (some secret) keyring = some (some secret)
chosen_secret none (ok secret) = some secret
chosen_secret none (err e) = none

module _ {T Q : Type 0} where
  abbrev pub tab_profile : Option (Tab T Q) → Option ConnectionProfile
  tab_profile none = none
  tab_profile (some t) = kind_profile t.kind

  abbrev pub attached_session : Option (Tab T Q) → Handle Q → Option (Tab T Q)
  attached_session none h = none
  attached_session (some t) h = TabOps.attach_session t h

  abbrev pub attached_local : Option (Tab T Q) → Handle Q → Option (Tab T Q)
  attached_local none h = none
  attached_local (some t) h = TabOps.attach_local t h

  -- What follows `attach_session` and `attach_local`: the tab with its session and the pump of its
  -- events, or the message.
  abbrev pub with_pump : AppView T Q → TabId → Handle Q → Option (Tab T Q) → AppView T Q × List Task
  with_pump v id h none = (record v { status_message = some MessageId.connect_failed }, [])
  with_pump v id h (some t) =
      (record v { tabs = update_tab v.tabs id (λ old. t) }, pump id h.id ∷ [])

  module _ ⦃channel : Channel Q⦄ ⦃em : Emulator T⦄ where
    -- The `Err` branch of both starts.
    abbrev pub start_failed : AppView T Q → TabId → Uuid → SessionError → AppView T Q
    start_failed v id fresh e = record v {
      tabs = (Tabs.apply_event v.tabs id fresh (error e)).0;
      status_message = some (session_error_message_id e);
    }

    abbrev pub started :
        AppView T Q → TabId → Uuid → Result SessionError (Handle Q) → AppView T Q × List Task
    started v id fresh (ok h) = with_pump v id h (attached_session (tab v.tabs id) h)
    started v id fresh (err e) = (start_failed v id fresh e, [])

    abbrev pub started_local :
        AppView T Q → TabId → Uuid → Result SessionError (Handle Q) → AppView T Q × List Task
    started_local v id fresh (ok h) = with_pump v id h (attached_local (tab v.tabs id) h)
    started_local v id fresh (err e) = (start_failed v id fresh e, [])

    module _ (connect : ConnectRequest → Result SessionError (Handle Q)) where
      abbrev pub start_for :
          AppView T Q → TabId → Uuid → Option Text → Option (Tab T Q) → AppView T Q × List Task
      start_for v id fresh secret none = (v, [])
      start_for v id fresh secret (some t) = elim (kind_profile t.kind) [
        | none ↦ (v, [])
        | some p ↦ started v id fresh (
            connect
              (record { profile = p; secret = secret; initial_size = core_size t.terminal.size }))
      ]

      -- A service that could not be made answers `ConnectFailed`.
      unfoldable pub start_session_inner :
          AppView T Q → TabId → Uuid → Option Text → AppView T Q × List Task
      start_session_inner v id fresh secret = start_for v id fresh secret (tab v.tabs id)

      unfoldable pub start_session :
          AppView T Q → TabId → Uuid → Option Text → AppView T Q × List Task
      unfolding start_session_inner
      start_session v id fresh secret = elim (tab_profile (tab v.tabs id)) [
        | none ↦ (v, [])
        | some p ↦ elim (preflight_path p.auth secret) [
          | some path ↦ (v, preflight id path ∷ [])
          | none ↦ start_session_inner v id fresh secret
        ]
      ]

      -- The task `preflight`, with what `private_key_requires_passphrase` answered.
      unfoldable pub preflighted :
          AppView T Q → TabId → Uuid → Result SessionError Bool → AppView T Q × List Task
      unfolding start_session_inner
      preflighted v id fresh (ok true) = (secret_requested v (request_secret v.tabs id), [])
      preflighted v id fresh (ok false) = start_session_inner v id fresh none
      preflighted v id fresh (err e) = (start_failed v id fresh e, [])

      -- The function behind `complete_current_if`.
      abbrev pub submitted :
          AppView T Q → TabId → Uuid → Option ModalRequest × ModalQueue → AppView T Q × List Task
      submitted v id fresh (none, modals) = (v, [])
      submitted v id fresh (some request, modals) =
          start_session (record v { tabs = record v.tabs { modals = modals }; secret = [] }) id
            fresh (some v.secret)

      unfoldable pub submit_secret : AppView T Q → TabId → Uuid → AppView T Q × List Task
      unfolding start_session
      submit_secret v id fresh =
          if not (is_some_and (head? v.tabs.modals) (is_secret_for id))
          then (v, [])
          else elim v.secret [
            | [] ↦ (record v { status_message = some MessageId.credential_required }, [])
            | c ∷ cs ↦ submitted v id fresh (complete_current_if v.tabs.modals (is_secret_for id))
          ]

      -- The new tab, with its session started unless it needs a secret.
      abbrev pub opened :
          AppView T Q
          → TabId
          → Uuid
          → Bool
          → Option Text
          → Option (TabCollection T Q)
          → Option (AppView T Q × List Task)
      opened v id fresh needs_secret secret none = none
      opened v id fresh needs_secret secret (some tabs) = some (
          if not needs_secret
          then start_session (record v { tabs = tabs }) id fresh secret
          else (record v { tabs = tabs }, []))

      -- `id` is the UUID of the new tab.
      unfoldable pub connect_profile_resolved :
          AppView T Q
          → TabId
          → Uuid
          → TerminalSize
          → TerminalColors
          → ConnectionProfile
          → Result CredentialError (Option Text)
          → Option (AppView T Q × List Task)
      unfolding start_session
      connect_profile_resolved v id fresh size colors p keyring =
          let u = record v {
            connecting_profiles = retain (λ x. not (x == p.id)) v.connecting_profiles;
            connect_secrets = retain (λ x. not (x.0 == p.id)) v.connect_secrets;
          } in
          elim (chosen_secret (find_secret p.id v.connect_secrets) keyring) [
            | none ↦
                opened u id fresh true none
                  (open_tab u.tabs id p size colors (requires_one_time_secret p))
            | some secret ↦
                let needs_secret = requires_one_time_secret p && not (is_some secret) in
                opened u id fresh needs_secret secret
                  (open_tab u.tabs id p size colors needs_secret)
          ]

      -- `has_store` says whether the view has a keyring.
      unfoldable pub connect_profile :
          AppView T Q
          → TabId
          → Uuid
          → TerminalSize
          → TerminalColors
          → Bool
          → ConnectionProfile
          → Option (AppView T Q × List Task)
      unfolding connect_profile_resolved
      connect_profile v id fresh size colors has_store p =
          let u = record v { main_view = MainView.sessions } in
          let w = record u { connecting_profiles = p.id ∷ u.connecting_profiles } in
          if any (λ x. x == p.id) v.connecting_profiles
          then some (u, [])
          else if is_some (credential_reference p.auth) && has_store
          then some (w, read_keyring p ∷ [])
          else connect_profile_resolved w id fresh size colors p (ok none)
