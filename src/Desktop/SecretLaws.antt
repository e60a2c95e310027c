-- ===== src/Desktop/SecretLaws.antt =====
-- crates/oxide-ssh-desktop/src/app/dialog.rs: a dialog that asks for a secret starts with an empty field.
use oxide_ssh.Prelude.{◌≡◌, refl, ap, true, false, List, [], ◌∷◌, Option, none, some, inl, inr, ◌⊎◌}
use mathlib.Core.Logic.{ite}
use oxide_ssh.Tabs.Modals.{TabId, secret}
use oxide_ssh.Desktop.View.{AppView}
use oxide_ssh.Desktop.Identity.{DialogIdentityKind, DialogFocusIdentity, focus_identity}
use oxide_ssh.Desktop.Presenter.{
  DialogSnapshot, DialogPayload, DialogFocusIdentity-discrete, focus_of, requested_dialog,
  payload_focus, focus_initial, deferred_focus, to_dialog, FocusChange, synced, sync_dialog_layer,
}

identity_refl : {a : DialogFocusIdentity} (d : Dec (a ≡ a)) → ite d true false ≡ true
identity_refl (yes p) = refl
identity_refl (no n) = absurd (n refl)

identity_differs :
    {a b : DialogFocusIdentity} (d : Dec (a ≡ b)) → ¬ (a ≡ b) → ite d true false ≡ false
identity_differs (yes p) n = absurd (n p)
identity_differs (no q) n = refl

-- The dialog that asks for the secret of a tab.
abbrev pub secret_dialog : TabId → DialogPayload
secret_dialog id = record {
  kind = DialogIdentityKind.secret id;
  snapshot = DialogSnapshot.modal (secret id);
}

-- The deferred calls, in order.
module _ {T Q : Type 0} where
  unfoldable pub settle : AppView T Q → Option DialogPayload → List FocusChange → AppView T Q
  unfolding deferred_focus
  settle v shown [] = v
  settle v shown (to_dialog identity ∷ rest) = settle (deferred_focus v shown identity) shown rest
  settle v shown (_ ∷ rest) = settle v shown rest

  -- A render of the dialog layer, and what it defers.
  unfoldable pub shown_after : AppView T Q → Option DialogPayload → AppView T Q
  unfolding sync_dialog_layer settle
  shown_after v shown = let (w, changes, now) = sync_dialog_layer v shown in settle w now changes

  -- The field before and after: emptied for a dialog that was not shown, kept for one that was.
  abbrev pub SecretField : AppView T Q → AppView T Q → TabId → Option DialogPayload → Type 0
  SecretField v w id shown =
      ((focus_of shown ≡ some (DialogFocusIdentity.secret id)) × (w ≡ v))
      ⊎ ((¬ (focus_of shown ≡ some (DialogFocusIdentity.secret id)))
          × (w ≡ record v { secret = [] }))

  emptied :
      (v : AppView T Q) (id : TabId)
      → requested_dialog v ≡ some (secret_dialog id)
      → deferred_focus v (some (secret_dialog id)) (some (DialogFocusIdentity.secret id))
        ≡ record v { secret = [] }
  unfolding deferred_focus focus_initial focus_identity
  emptied v id h =
      rw
        (
          h,
          identity_refl (
              DialogFocusIdentity-discrete (DialogFocusIdentity.secret id)
                (DialogFocusIdentity.secret id)),
        )
        refl

  -- When the view asks for the secret of a tab, a render and what it defers leave the view as it is if the
  -- dialog for that tab was already shown, and otherwise, whatever was shown, also the dialog for
  -- another tab, empty the field and change nothing else.
  pub shown_after-secret :
      (v : AppView T Q) (id : TabId) (shown : Option DialogPayload)
      → requested_dialog v ≡ some (secret_dialog id)
      → SecretField v (shown_after v shown) id shown
  unfolding shown_after sync_dialog_layer synced settle payload_focus focus_of focus_identity
  shown_after-secret v id none h = inr ((λ e. cc), rw h (emptied v id h))
  shown_after-secret v id (some old) h =
      let asked_now = DialogFocusIdentity.secret id in
      elim (DialogFocusIdentity-discrete (focus_identity old.kind) asked_now) [
        | yes same ↦
            let d = identity_refl (DialogFocusIdentity-discrete asked_now asked_now) in
            inl (ap some same, rw (h, same, d) refl)
        | no other ↦
            let d =
              identity_differs (DialogFocusIdentity-discrete (focus_identity old.kind) asked_now)
                other in
            inr ((λ e. other cc), rw (h, d) (emptied v id h))
      ]
