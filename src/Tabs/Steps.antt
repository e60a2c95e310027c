-- ===== src/Tabs/Steps.antt =====
-- crates/oxide-ssh-app/src/tabs.rs: any sequence of calls of the public methods, in any order.
-- A tab is opened under an identifier that no tab has (a fresh random UUID). An event that asks about a
-- host key is applied for a tab that is there, which `handle_session_event` of
-- crates/oxide-ssh-desktop/src/app/session.rs tests before it calls; `apply_event` itself would queue a
-- dialog for any identifier. Other events are applied for any.
use oxide_ssh.Prelude.{Bool, true, false, ◌≡◌, some, subst}
use oxide_ssh.Model.Types.{Uuid, ConnectionProfile}
use oxide_ssh.Session.Events.{SessionEvent}
use oxide_ssh.Session.Handle.{Channel}
use oxide_ssh.Terminal.Types.{TerminalSize, TerminalColors, Emulator}
use oxide_ssh.Tabs.Modals.{TabId, ModalRequest, complete_current, complete_current_if}
use oxide_ssh.Tabs.Calls.{TabCall, call}
use oxide_ssh.Tabs.Collection.{
  TabCollection, empty, update_tab, set_active, set_terminal_colors, remove, begin_close,
  request_close, disconnect_all, open_tab, open_local, apply_event, prepare_reconnect,
  request_secret,
}
use oxide_ssh.Tabs.Ids.{contains, ids}
use oxide_ssh.Tabs.Valid.{
  is_host_key_event, IsValid, complete_current-IsValid, complete_current_if-IsValid,
}
use oxide_ssh.Tabs.Removal.{remove-IsValid}
use oxide_ssh.Tabs.Keeps.{
  empty-IsValid, set_active-IsValid, set_terminal_colors-IsValid, request_secret-IsValid,
  begin_close-IsValid, request_close-IsValid, disconnect_all-IsValid, call-IsValid,
  apply_event-IsValid, prepare_reconnect-IsValid, open_local-IsValid, open_tab-IsValid,
}

module _ {T Q : Type 0} ⦃channel : Channel Q⦄ ⦃em : Emulator T⦄ where
  pub data Step (c d : TabCollection T Q) : Type 0 where
    opened :
        (id : TabId) (profile : ConnectionProfile) (size : TerminalSize) (colors : TerminalColors)
        (awaiting : Bool)
        → contains id (ids c.tabs) ≡ false
        → open_tab c id profile size colors awaiting ≡ some d
        → Step c d
    opened_local :
        (id : TabId) (size : TerminalSize) (colors : TerminalColors)
        → contains id (ids c.tabs) ≡ false
        → open_local c id size colors ≡ some d
        → Step c d
    called : (id : TabId) (k : TabCall Q) → update_tab c id (λ t. call t k) ≡ d → Step c d
    applied :
        (id : TabId) (fresh : Uuid) (e : SessionEvent)
        → (is_host_key_event e ≡ true → contains id (ids c.tabs) ≡ true)
        → (apply_event c id fresh e).0 ≡ d
        → Step c d
    activated : (id : TabId) → (set_active c id).0 ≡ d → Step c d
    removed : (id : TabId) → (remove c id).0 ≡ d → Step c d
    began_close : (id : TabId) → (begin_close c id).0 ≡ d → Step c d
    requested_close : (id : TabId) → (request_close c id).0 ≡ d → Step c d
    requested_secret : (id : TabId) → (request_secret c id).0 ≡ d → Step c d
    reconnected :
        (id : TabId) (size : TerminalSize) (colors : TerminalColors)
        → (prepare_reconnect c id size colors).0 ≡ d
        → Step c d
    completed : record c { modals = (complete_current c.modals).1 } ≡ d → Step c d
    completed_if :
        (m : ModalRequest → Bool)
        → record c { modals = (complete_current_if c.modals m).1 } ≡ d
        → Step c d
    recolored : (colors : TerminalColors) → set_terminal_colors c colors ≡ d → Step c d
    disconnected : disconnect_all c ≡ d → Step c d

  pub data Reach (c : TabCollection T Q) : TabCollection T Q → Type 0 where
    here : Reach c c
    next : {d e : TabCollection T Q} → Reach c d → Step d e → Reach c e

  pub Step-IsValid : {c d : TabCollection T Q} → Step c d → IsValid c → IsValid d
  Step-IsValid {c} (opened id p s l a fresh e) v = open_tab-IsValid c id p s l a fresh e v
  Step-IsValid {c} (opened_local id s l fresh e) v = open_local-IsValid c id s l fresh e v
  Step-IsValid {c} (called id k e) v = subst IsValid e (call-IsValid c id k v)
  Step-IsValid {c} (applied id fresh k known e) v =
      subst IsValid e (apply_event-IsValid c id fresh k known v)
  Step-IsValid {c} (activated id e) v = subst IsValid e (set_active-IsValid c id v)
  Step-IsValid {c} (removed id e) v = subst IsValid e (remove-IsValid c id v)
  Step-IsValid {c} (began_close id e) v = subst IsValid e (begin_close-IsValid c id v)
  Step-IsValid {c} (requested_close id e) v = subst IsValid e (request_close-IsValid c id v)
  Step-IsValid {c} (requested_secret id e) v = subst IsValid e (request_secret-IsValid c id v)
  Step-IsValid {c} (reconnected id s l e) v = subst IsValid e (prepare_reconnect-IsValid c id s l v)
  Step-IsValid {c} (completed e) v = subst IsValid e (complete_current-IsValid c v)
  Step-IsValid {c} (completed_if m e) v = subst IsValid e (complete_current_if-IsValid c m v)
  Step-IsValid {c} (recolored l e) v = subst IsValid e (set_terminal_colors-IsValid c l v)
  Step-IsValid {c} (disconnected e) v = subst IsValid e (disconnect_all-IsValid c v)

  Reach_keeps : {c d : TabCollection T Q} → IsValid c → Reach c d → IsValid d
  Reach_keeps v here = v
  Reach_keeps v (next r s) = Step-IsValid s (Reach_keeps v r)

  -- Whatever methods were called since the collection was made, in whatever order, where each tab was
  -- opened under an identifier that no tab had, and each event that asks about a host key, new or
  -- changed, came for a tab that was there then: the tabs' identifiers are distinct, the active tab is one of them and there is one unless there is no
  -- tab, every waiting dialog belongs to a tab that is there, no two dialogs ask the same, and a
  -- tab that is disconnected or waits for a secret holds no session.
  pub Reach-IsValid : {d : TabCollection T Q} → Reach empty d → IsValid d
  Reach-IsValid r = Reach_keeps empty-IsValid r
