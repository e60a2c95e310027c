-- ===== src/Tabs/Examples.antt =====
-- crates/oxide-ssh-app/src/tabs.rs: the tabs at concrete inputs. The emulator keeps nothing and sends
-- no event but a bell for each byte 7; the channel is the number of messages that it has room for.
use oxide_ssh.Prelude.{
  ℕ, zero, suc, true, false, ◌≡◌, refl, List, [], ◌∷◌, Option, none, some, Result, ok, err, arith,
}
use oxide_ssh.Model.Types.{Endpoint}
use oxide_ssh.Input.Keys.{Bytes}
use oxide_ssh.Session.Events.{SessionState, SessionEvent, state_changed, exited}
use oxide_ssh.Session.Handle.{Channel, TrySendError, full_queue}
use oxide_ssh.Terminal.Types.{TerminalSize, default_colors, Emulator, Event}
use oxide_ssh.Terminal.Model.{with_colors}
use oxide_ssh.Tabs.Modals.{
  TabId, ModalRequest, host_key, confirm_close, is_host_key_for, complete_current_if,
  complete_current, is_duplicate, shares_prompt, push, remove_tab,
}
use oxide_ssh.Tabs.ModalLaws.{IsSettled, answered_once, pushed, completed, run, run-IsSettled}
use oxide_ssh.Tabs.Tab.{
  Tab, Session, TabKind, TabState, connected, awaiting_secret, disconnected, exit, send_bytes,
  handle,
}
use oxide_ssh.Tabs.Tab as TabOps
use oxide_ssh.Tabs.Collection.{
  TabCollection, empty, open_local, tab, remove, request_close, apply_event,
}
use oxide_ssh.Tabs.Valid.{IsValid}
use oxide_ssh.Tabs.Removal.{remove-split}
use oxide_ssh.Tabs.Steps.{opened_local, requested_close, here, next, Reach-IsValid}
use oxide_ssh.Tabs.Events.{run_events, reason_kept}
use oxide_ssh.Tabs.Closing.{dialogs, apply_event-other}

abbrev bells : Bytes → List Event
bells [] = []
bells (b ∷ bs) = Event.bell ∷ bells bs

instance abbrev pub quiet_emulator : Emulator ℕ
quiet_emulator = record {
  min_columns = 2;
  min_screen_lines = 1;
  color_count = 269;
  new = λ size. (0, []);
  advance = λ t bytes. (t, bells bytes);
  stop_sync = λ t. (t, []);
  resize = λ t size. (t, []);
  mode = λ t. record { app_cursor = false; bracketed_paste = true };
  colors = λ t index. none;
}

abbrev room_left : ℕ → Result TrySendError ℕ
room_left zero = err full_queue
room_left (suc n) = ok n

instance abbrev pub room_channel : Channel ℕ
room_channel = record { try_send = λ q bytes. room_left q; close = λ q. 0 }

abbrev size : TerminalSize
size = record { columns = 80; rows = 24; pixel_width = 640; pixel_height = 384 }

abbrev pub session : ℕ → Session ℕ
session room = Session.local (record {
  id = 41;
  events = false;
  input = room;
  latest_size = record { columns = 80; rows = 24; pixel_width = 640; pixel_height = 384 };
  stopped = false;
  disconnect_started = false;
})

abbrev pub shell : TabId → Option (Session ℕ) → Tab ℕ ℕ
shell id s = record {
  id = id;
  kind = TabKind.local;
  state = connected;
  terminal = record { term = 0; pending_events = []; size = size; default_colors = default_colors };
  session = s;
  session_id = none;
  closing = false;
  local_error = none;
}

abbrev host : Endpoint
host = record { host = b'h' ∷ []; port = 22 }

abbrev prompt : TabId → ModalRequest
prompt t = host_key t 70 host [] []

-- Two tabs, with a dialog for each.
abbrev two_tabs : TabCollection ℕ ℕ
two_tabs = record {
  tabs = shell 1 (some (session 3)) ∷ shell 2 none ∷ [];
  active = some 1;
  modals = prompt 1 ∷ confirm_close 2 ∷ [];
}

-- A second tab that waits for the same host key puts no dialog of its own.
shared_prompt : push two_tabs.modals (prompt 2) ≡ two_tabs.modals
unfolding push is_duplicate shares_prompt
shared_prompt = refl

run-IsSettled_example : IsSettled (run [] (pushed (prompt 1) ∷ pushed (prompt 2) ∷ completed ∷ []))
run-IsSettled_example = run-IsSettled [] (pushed (prompt 1) ∷ pushed (prompt 2) ∷ completed ∷ []) tt

-- A prompt in front of the question whether to close another tab.
answered_once_example :
    complete_current_if (confirm_close 2 ∷ []) (is_host_key_for 2 70) ≡ (none, confirm_close 2 ∷ [])
unfolding complete_current_if complete_current
answered_once_example =
    answered_once (prompt 1 ∷ confirm_close 2 ∷ []) (confirm_close 2 ∷ []) (prompt 1) 1 2 70
      (((λ s. s), tt), (tt, tt)) refl

remove-split_example : remove two_tabs 1 ≡ (
  record { tabs = shell 2 none ∷ []; active = some 2; modals = confirm_close 2 ∷ [] },
  some (TabOps.disconnect (shell 1 (some (session 3)))),
)
unfolding remove_tab
remove-split_example =
    remove-split two_tabs [] (shell 2 none ∷ []) (shell 1 (some (session 3))) refl refl

apply_event-other_example :
    let d = (apply_event two_tabs 1 9 (exited (some 0))).0 in
    (tab d 2 ≡ some (shell 2 none))
    × (dialogs 2 d.modals ≡ confirm_close 2 ∷ [])
    × (d.active ≡ some 1)
apply_event-other_example = apply_event-other two_tabs 1 2 9 (exited (some 0)) (omega arith)

-- The first tab in order: its session is known.
abbrev lone_tab : TabCollection ℕ ℕ
lone_tab = record { tabs = shell 2 none ∷ []; active = some 2; modals = confirm_close 2 ∷ [] }

lone_tab-IsValid : IsValid lone_tab
lone_tab-IsValid = record {
  distinct = (tt, tt);
  consistent = (record { session_known = refl; over = λ h. refl }, tt);
  active_known = refl;
  modals_known = (refl, tt);
  settled = (tt, tt);
}

reason_kept_example :
    (run_events (shell 1 (some (session 3))) (
      exited (some 3)
      ∷ SessionEvent.output (7 ∷ [])
      ∷ state_changed SessionState.disconnected
      ∷ [])).state
    ≡ disconnected (exit (some 3))
reason_kept_example =
    reason_kept (shell 1 (some (session 3))) (exited (some 3))
      (SessionEvent.output (7 ∷ []) ∷ state_changed SessionState.disconnected ∷ []) refl
      (tt, (tt, tt))

-- A local tab is opened and asked to close.
abbrev opened_tab : Tab ℕ ℕ
opened_tab = record {
  id = 5;
  kind = TabKind.local;
  state = TabState.connecting;
  terminal = record { term = 0; pending_events = []; size = size; default_colors = default_colors };
  session = none;
  session_id = none;
  closing = false;
  local_error = none;
}

opens :
    open_local (empty {T = ℕ} {Q = ℕ}) 5 size default_colors
    ≡ some (record { tabs = opened_tab ∷ []; active = some 5; modals = [] })
unfolding open_local empty TabOps.new with_colors
opens = refl

asks :
    (request_close (record { tabs = opened_tab ∷ []; active = some 5; modals = [] }) 5).0
    ≡ record { tabs = opened_tab ∷ []; active = some 5; modals = confirm_close 5 ∷ [] }
unfolding request_close push
asks = refl

Reach-IsValid_example :
    IsValid (record { tabs = opened_tab ∷ []; active = some 5; modals = confirm_close 5 ∷ [] })
unfolding empty
Reach-IsValid_example =
    Reach-IsValid
      (next (next here (opened_local 5 size default_colors refl opens)) (requested_close 5 asks))
