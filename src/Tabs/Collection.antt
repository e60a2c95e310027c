-- ===== src/Tabs/Collection.antt =====
-- crates/oxide-ssh-app/src/tabs.rs: `TabCollection`.
use oxide_ssh.Prelude.{
  ℕ, Bool, true, false, not, ◌||◌, List, [], ◌∷◌, ◌++◌, Option, none, some, Result, ok, err, ◌==◌,
  if◌then◌else◌, map, find, position, erase_idx, update_first, get_elem?, get_last?, is_some,
  is_some_and,
}
use oxide_ssh.Model.Types.{Uuid, ConnectionProfile}
use oxide_ssh.Session.Events.{
  SessionEvent, unknown_host_key, changed_host_key, exited, error, is_host_key_changed,
}
use oxide_ssh.Session.Handle.{Channel}
use oxide_ssh.Terminal.Types.{TerminalSize, TerminalColors, TerminalError, invalid_size, Emulator}
use oxide_ssh.Terminal.Model as Terminal
use oxide_ssh.Tabs.Modals.{TabId, ModalQueue, host_key, secret, confirm_close}
use oxide_ssh.Tabs.Modals as Modals
use oxide_ssh.Tabs.Tab.{Tab, TabKind, TabNotification, is_disconnected}
use oxide_ssh.Tabs.Tab as TabOps

pub record TabCollection (T Q : Type 0) : Type 0 where
  pub tabs : List (Tab T Q)
  pub active : Option TabId
  pub modals : ModalQueue

abbrev pub has_id : {T Q : Type 0} → TabId → Tab T Q → Bool
has_id id t = t.id == id

-- `self.active == Some(id)`.
abbrev pub is_active : Option TabId → TabId → Bool
is_active none id = false
is_active (some a) id = a == id

-- The part of `apply_event` that stands before the tab sees the event; `fresh` is the UUID that it
-- draws for a changed key.
unfoldable pub event_modals : ModalQueue → TabId → Uuid → SessionEvent → ModalQueue
event_modals modals id fresh (unknown_host_key prompt endpoint algorithm fingerprint) =
    Modals.push modals (host_key id prompt endpoint algorithm fingerprint)
event_modals modals id fresh (changed_host_key endpoint expected presented) =
    Modals.push modals (Modals.ModalRequest.changed_host_key id fresh endpoint expected presented)
event_modals modals id fresh (error e) =
    if not (is_host_key_changed e) then (Modals.remove_tab modals id).1 else modals
event_modals modals id fresh (exited status) = (Modals.remove_tab modals id).1
event_modals modals id fresh _ = modals

module _ {T Q : Type 0} where
  unfoldable pub empty : TabCollection T Q
  empty = record { tabs = []; active = none; modals = [] }

  abbrev pub tab : TabCollection T Q → TabId → Option (Tab T Q)
  tab c id = find (has_id id) c.tabs

  -- A write through `tab_mut(id)`.
  abbrev pub update_tab : TabCollection T Q → TabId → (Tab T Q → Tab T Q) → TabCollection T Q
  update_tab c id f = record c { tabs = update_first (has_id id) f c.tabs }

  unfoldable pub set_active : TabCollection T Q → TabId → TabCollection T Q × Bool
  set_active c id =
      if not (is_some (tab c id)) then (c, false) else (record c { active = some id }, true)

  -- `get(index).or_else(last).map(id)`, on the tabs that are left.
  unfoldable pub next_active : List (Tab T Q) → ℕ → Option TabId
  next_active tabs index = elim (get_elem? tabs index) [
    | some t ↦ some t.id
    | none ↦ elim (get_last? tabs) [ some t ↦ some t.id | none ↦ none ]
  ]

  -- The function from its second statement on, with the index of the tab.
  unfoldable pub remove_at : TabCollection T Q → TabId → ℕ → TabCollection T Q
  unfolding next_active
  remove_at c id index =
      let rest = erase_idx c.tabs index in
      record {
        tabs = rest;
        active = if is_active c.active id then next_active rest index else c.active;
        modals = (Modals.remove_tab c.modals id).1;
      }

  module _ ⦃channel : Channel Q⦄ where
    -- The tab that is taken out has its session disconnected.
    unfoldable pub remove : TabCollection T Q → TabId → TabCollection T Q × Option (Tab T Q)
    unfolding remove_at
    remove c id = elim (position (has_id id) c.tabs) [
      | none ↦ (c, none)
      | some index ↦ elim (get_elem? c.tabs index) [
        | none ↦ (c, none)
        | some t ↦ (remove_at c id index, some (TabOps.disconnect t))
      ]
    ]

    unfoldable pub begin_close : TabCollection T Q → TabId → TabCollection T Q × Bool
    begin_close c id =
        if is_some_and (tab c id) (λ t. is_some t.session)
        then (update_tab c id (λ t. TabOps.disconnect (record t { closing = true })), true)
        else ((remove c id).0, false)

    unfoldable pub request_close : TabCollection T Q → TabId → TabCollection T Q × Bool
    request_close c id = elim (tab c id) [
      | none ↦ (c, false)
      | some t ↦
          if is_disconnected t.state || t.closing
          then ((remove c id).0, true)
          else (record c { modals = Modals.push c.modals (confirm_close id) }, true)
    ]

    unfoldable pub disconnect_all : TabCollection T Q → TabCollection T Q
    disconnect_all c = record c { tabs = map TabOps.disconnect c.tabs }

    module _ ⦃em : Emulator T⦄ where
      -- `id` is the fresh UUID of the tab; `none` is the panic of `expect`.
      unfoldable pub open_tab :
          TabCollection T Q
          → TabId
          → ConnectionProfile
          → TerminalSize
          → TerminalColors
          → Bool
          → Option (TabCollection T Q)
      open_tab c id profile size colors awaiting =
          elim (TabOps.new id (TabKind.ssh profile) size colors awaiting) [
            | err e ↦ none
            | ok t ↦ some (record {
              tabs = c.tabs ++ t ∷ [];
              active = some id;
              modals = if awaiting then Modals.push c.modals (secret id) else c.modals;
            })
          ]

      unfoldable pub open_local :
          TabCollection T Q → TabId → TerminalSize → TerminalColors → Option (TabCollection T Q)
      open_local c id size colors = elim (TabOps.new id TabKind.local size colors false) [
        | err e ↦ none
        | ok t ↦ some (record c { tabs = c.tabs ++ t ∷ []; active = some id })
      ]

      unfoldable pub apply_event :
          TabCollection T Q → TabId → Uuid → SessionEvent → TabCollection T Q × List TabNotification
      apply_event c id fresh event = (
        record {
          tabs = update_first (has_id id) (λ t. (TabOps.apply_event t event).0) c.tabs;
          active = c.active;
          modals = event_modals c.modals id fresh event;
        },
        elim (tab c id) [ none ↦ [] | some t ↦ (TabOps.apply_event t event).1 ],
      )

      unfoldable pub prepare_reconnect :
          TabCollection T Q
          → TabId
          → TerminalSize
          → TerminalColors
          → TabCollection T Q × Result TerminalError (Unit {0})
      prepare_reconnect c id size colors =
          let u = record c { modals = (Modals.remove_tab c.modals id).1 } in
          elim (tab c id) [
            | none ↦ (u, err invalid_size)
            | some t ↦ (
              update_tab u id (λ x. (TabOps.prepare_reconnect x size colors).0),
              (TabOps.prepare_reconnect t size colors).1,
            )
          ]

  unfoldable pub request_secret :
      TabCollection T Q → TabId → TabCollection T Q × Result TerminalError (Unit {0})
  request_secret c id =
      let rest = (Modals.remove_tab c.modals id).1 in
      elim (tab c id) [
        | none ↦ (record c { modals = rest }, err invalid_size)
        | some t ↦ (
          record {
            tabs = update_first (has_id id) TabOps.await_secret c.tabs;
            active = c.active;
            modals = Modals.push rest (secret id);
          },
          ok tt,
        )
      ]

  unfoldable pub recolor : TerminalColors → Tab T Q → Tab T Q
  recolor colors t = record t { terminal = Terminal.set_default_colors t.terminal colors }

  unfoldable pub set_terminal_colors : TabCollection T Q → TerminalColors → TabCollection T Q
  unfolding recolor
  set_terminal_colors c colors = record c { tabs = map (recolor colors) c.tabs }
