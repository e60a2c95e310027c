-- ===== src/Desktop/Dialogs.antt =====
-- crates/oxide-ssh-desktop/src/app/dialog.rs and session.rs: which dialog is on top, what Enter and Escape
-- do in it, and how tabs are closed. The snapshot of a dialog is what it was shown for: its answer can
-- come when another request is on top.
use oxide_ssh.Prelude.{
  Bool, true, false, List, [], ◌∷◌, Option, none, some, Result, ok, err, if◌then◌else◌, is_some_and,
}
use oxide_ssh.Model.Types.{Uuid}
use oxide_ssh.Session.Events.{HostKeyDecision, accept_and_store, reject, SessionError}
use oxide_ssh.Session.Handle.{Channel, Handle}
use oxide_ssh.Terminal.Types.{Emulator}
use oxide_ssh.Tabs.Modals.{
  TabId, ModalRequest, ModalQueue, host_key, changed_host_key, secret, confirm_close, is_secret_for,
  is_confirm_close_for, is_host_key_for, is_changed_host_key_for, complete_current_if,
}
use oxide_ssh.Tabs.Tab.{Tab}
use oxide_ssh.Tabs.Collection.{TabCollection, tab, remove, begin_close, request_close}
use oxide_ssh.Desktop.Messages.{session_error_message_id}
use oxide_ssh.Desktop.View.{AppView, MainView, SettingsCategory, Task, close_timer}
use oxide_ssh.Desktop.Sessions.{ConnectRequest, submit_secret}

module _ {T Q : Type 0} where
  abbrev pub with_modals : AppView T Q → ModalQueue → AppView T Q
  with_modals v modals = record v { tabs = record v.tabs { modals = modals } }

  -- `complete_current_if(..).is_none()`, and what follows where it is not.
  abbrev pub completing :
      {A : Type 0} → AppView T Q → A → (AppView T Q → A) → Option ModalRequest × ModalQueue → A
  completing v same then_do (none, modals) = same
  completing v same then_do (some request, modals) = then_do (with_modals v modals)

  unfoldable pub cancel_tab_close : AppView T Q → TabId → AppView T Q
  cancel_tab_close v id =
      completing v v (λ u. u) (complete_current_if v.tabs.modals (is_confirm_close_for id))

  unfoldable pub open_trusted_hosts : AppView T Q → TabId → Uuid → AppView T Q
  open_trusted_hosts v id request =
      completing v v
        (λ u. record u {
          main_view = MainView.settings;
          settings_category = SettingsCategory.security;
        })
        (complete_current_if v.tabs.modals (is_changed_host_key_for id request))

  unfoldable pub close_changed_host_key : AppView T Q → TabId → Uuid → AppView T Q
  close_changed_host_key v id request =
      completing v v (λ u. u)
        (complete_current_if v.tabs.modals (is_changed_host_key_for id request))

  abbrev pub decided : AppView T Q → Result SessionError (Unit {0}) → AppView T Q
  decided v (ok u) = v
  decided v (err e) = record v { status_message = some (session_error_message_id e) }

  abbrev pub decide_in :
      (Tab T Q → Uuid → HostKeyDecision → Result SessionError (Unit {0}))
      → Uuid
      → HostKeyDecision
      → Option (Tab T Q)
      → Result SessionError (Unit {0})
  decide_in answer prompt decision none = err SessionError.disconnected
  decide_in answer prompt decision (some t) = answer t prompt decision

  -- `answer` is the tab's `decide_host_key`, which asks the host trust coordinator.
  unfoldable pub decide_host_key :
      (Tab T Q → Uuid → HostKeyDecision → Result SessionError (Unit {0}))
      → AppView T Q
      → TabId
      → Uuid
      → HostKeyDecision
      → AppView T Q
  decide_host_key answer v id prompt decision =
      completing v v (λ u. decided u (decide_in answer prompt decision (tab u.tabs id)))
        (complete_current_if v.tabs.modals (is_host_key_for id prompt))

  unfoldable pub cancel_confirm : AppView T Q → AppView T Q
  cancel_confirm v = record v { confirm = none }

  unfoldable pub dismiss_status : AppView T Q → AppView T Q
  dismiss_status v = record v { status_message = none }

  module _ ⦃channel : Channel Q⦄ where
    unfoldable pub close_tab : AppView T Q → TabId → AppView T Q
    close_tab v id = record v { tabs = (request_close v.tabs id).0 }

    -- `if !self.tabs.begin_close(tab_id) { return; }`, and the timer.
    abbrev pub closing_begun :
        AppView T Q → TabId → TabCollection T Q × Bool → AppView T Q × List Task
    closing_begun v id (tabs, false) = (record v { tabs = tabs }, [])
    closing_begun v id (tabs, true) = (record v { tabs = tabs }, close_timer id ∷ [])

    unfoldable pub confirm_tab_close : AppView T Q → TabId → AppView T Q × List Task
    confirm_tab_close v id =
        completing v (v, []) (λ u. closing_begun u id (begin_close u.tabs id))
          (complete_current_if v.tabs.modals (is_confirm_close_for id))

    -- The task `close_timer`.
    unfoldable pub close_timer_fired : AppView T Q → TabId → AppView T Q
    close_timer_fired v id =
        if is_some_and (tab v.tabs id) (λ t. t.closing)
        then record v { tabs = (remove v.tabs id).0 }
        else v

    unfoldable pub cancel_secret : AppView T Q → TabId → AppView T Q
    cancel_secret v id =
        completing v v (λ u. record u { secret = []; tabs = (remove u.tabs id).0 })
          (complete_current_if v.tabs.modals (is_secret_for id))

    -- `on_cancel` in the dialog of a request.
    unfoldable pub cancel_modal :
        (Tab T Q → Uuid → HostKeyDecision → Result SessionError (Unit {0}))
        → AppView T Q
        → ModalRequest
        → AppView T Q
    unfolding cancel_secret decide_host_key close_changed_host_key cancel_tab_close
    cancel_modal answer v (secret id) = cancel_secret v id
    cancel_modal answer v (host_key id prompt e a f) = decide_host_key answer v id prompt reject
    cancel_modal answer v (changed_host_key id request e x p) = close_changed_host_key v id request
    cancel_modal answer v (confirm_close id) = cancel_tab_close v id

    module _ ⦃em : Emulator T⦄ where
      -- `on_submit` in the dialog of a request.
      unfoldable pub submit_modal :
          (ConnectRequest → Result SessionError (Handle Q))
          → (Tab T Q → Uuid → HostKeyDecision → Result SessionError (Unit {0}))
          → AppView T Q
          → Uuid
          → ModalRequest
          → AppView T Q × List Task
      unfolding decide_host_key open_trusted_hosts confirm_tab_close
      submit_modal connect answer v fresh (secret id) = submit_secret connect v id fresh
      submit_modal connect answer v fresh (host_key id prompt e a f) =
          (decide_host_key answer v id prompt accept_and_store, [])
      submit_modal connect answer v fresh (changed_host_key id request e x p) =
          (open_trusted_hosts v id request, [])
      submit_modal connect answer v fresh (confirm_close id) = confirm_tab_close v id
