-- ===== src/Desktop/DialogLaws.antt =====
-- An answer that comes too late.
use oxide_ssh.Prelude.{
  Bool, true, false, Option, none, some, [], inl, inr, Bool-cases, arith, head?, is_some_and, ◌≡◌,
  refl, Result,
}
use oxide_ssh.Model.Types.{Uuid}
use oxide_ssh.Session.Events.{HostKeyDecision, SessionError}
use oxide_ssh.Session.Handle.{Channel, Handle}
use oxide_ssh.Terminal.Types.{Emulator}
use oxide_ssh.Tabs.Modals.{
  ModalRequest, ModalQueue, host_key, changed_host_key, secret, confirm_close, is_secret_for,
  is_confirm_close_for, is_host_key_for, is_changed_host_key_for, complete_current_if,
}
use oxide_ssh.Tabs.Tab.{Tab}
use oxide_ssh.Desktop.View.{AppView}
use oxide_ssh.Desktop.Sessions.{ConnectRequest, submit_secret}
use oxide_ssh.Desktop.Dialogs.{
  cancel_tab_close, open_trusted_hosts, close_changed_host_key, decide_host_key, confirm_tab_close,
  cancel_secret, cancel_modal, submit_modal,
}

-- Two requests that are one for the user: of the same kind, for the same tab, and for the same prompt or
-- request where they have one.
abbrev pub IsSameRequest : ModalRequest → ModalRequest → Type 0
IsSameRequest (secret a) (secret b) = a ≡ b
IsSameRequest (host_key a p e l f) (host_key b q e' l' f') = (a ≡ b) × (p ≡ q)
IsSameRequest (changed_host_key a p e x y) (changed_host_key b q e' x' y') = (a ≡ b) × (p ≡ q)
IsSameRequest (confirm_close a) (confirm_close b) = a ≡ b
IsSameRequest _ _ = ⊥

-- The test that the answer of a request's dialog makes.
abbrev is_answered_by : ModalRequest → ModalRequest → Bool
is_answered_by (secret id) current = is_secret_for id current
is_answered_by (host_key id prompt e a f) current = is_host_key_for id prompt current
is_answered_by (changed_host_key id request e x p) current =
    is_changed_host_key_for id request current
is_answered_by (confirm_close id) current = is_confirm_close_for id current

answered-IsSame :
    (r current : ModalRequest) → is_answered_by r current ≡ true → IsSameRequest r current
answered-IsSame (secret a) (secret b) h = ground arith
answered-IsSame (secret a) _ h = cc
answered-IsSame (host_key a p e l f) (host_key b q e' l' f') h = ground arith
answered-IsSame (host_key a p e l f) _ h = cc
answered-IsSame (changed_host_key a p e x y) (changed_host_key b q e' x' y') h = ground arith
answered-IsSame (changed_host_key a p e x y) _ h = cc
answered-IsSame (confirm_close a) (confirm_close b) h = ground arith
answered-IsSame (confirm_close a) _ h = cc

not_on_top :
    (r : ModalRequest) (top : Option ModalRequest)
    → ((current : ModalRequest) → top ≡ some current → ¬ IsSameRequest r current)
    → is_some_and top (is_answered_by r) ≡ false
not_on_top r none other = refl
not_on_top r (some current) other = elim (Bool-cases (is_answered_by r current)) [
  | inl same ↦ absurd (other current refl (answered-IsSame r current same))
  | inr differs ↦ differs
]

unanswered :
    (modals : ModalQueue) (p : ModalRequest → Bool)
    → is_some_and (head? modals) p ≡ false
    → complete_current_if modals p ≡ (none, modals)
unfolding complete_current_if
unanswered modals p h = rw h refl

module _ {T Q : Type 0} ⦃channel : Channel Q⦄ ⦃em : Emulator T⦄
    (connect : ConnectRequest → Result SessionError (Handle Q))
    (answer : Tab T Q → Uuid → HostKeyDecision → Result SessionError (Unit {0})) where
  late_answer :
      (v : AppView T Q) (fresh : Uuid) (r : ModalRequest)
      → is_some_and (head? v.tabs.modals) (is_answered_by r) ≡ false
      → (cancel_modal answer v r ≡ v) × (submit_modal connect answer v fresh r ≡ (v, []))
  unfolding cancel_modal submit_modal cancel_secret decide_host_key close_changed_host_key
      cancel_tab_close open_trusted_hosts confirm_tab_close submit_secret
  late_answer v fresh (secret id) h =
      (rw (unanswered v.tabs.modals (is_secret_for id) h) refl, rw h refl)
  late_answer v fresh (host_key id prompt e a f) h =
      let kept = unanswered v.tabs.modals (is_host_key_for id prompt) h in
      (rw kept refl, rw kept refl)
  late_answer v fresh (changed_host_key id request e x p) h =
      let kept = unanswered v.tabs.modals (is_changed_host_key_for id request) h in
      (rw kept refl, rw kept refl)
  late_answer v fresh (confirm_close id) h =
      let kept = unanswered v.tabs.modals (is_confirm_close_for id) h in
      (rw kept refl, rw kept refl)

  -- Enter and Escape in the dialog of a request, while the request on top is of another kind, for another
  -- tab, or for another prompt of the same tab, or none is there, change nothing and start nothing: no
  -- host is trusted, no secret is sent, no tab is closed.
  pub late_answer_lem :
      (v : AppView T Q) (fresh : Uuid) (r : ModalRequest)
      → ((current : ModalRequest) → head? v.tabs.modals ≡ some current → ¬ IsSameRequest r current)
      → (cancel_modal answer v r ≡ v) × (submit_modal connect answer v fresh r ≡ (v, []))
  late_answer_lem v fresh r other = late_answer v fresh r (not_on_top r (head? v.tabs.modals) other)
