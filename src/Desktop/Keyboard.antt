-- ===== src/Desktop/Keyboard.antt =====
-- crates/oxide-ssh-desktop/src/app/terminal.rs: keys, composed text, the clipboard and the mouse on the
-- terminal of the active tab. The cell under the mouse, which is found from pixels, is an argument.
use oxide_ssh.Prelude.{
  ℕ, Bool, true, false, ◌&&◌, not, List, [], ◌∷◌, Option, none, some, Result, ok, err, ◌==◌,
  if◌then◌else◌, leb, length, is_some,
}
use oxide_ssh.Model.Types.{Text}
use oxide_ssh.Model.Text.{text_eq}
use oxide_ssh.Session.Handle.{Channel}
use oxide_ssh.Terminal.Types.{TerminalSize, Emulator}
use oxide_ssh.Terminal.Model.{TerminalModel}
use oxide_ssh.Terminal.Selection.{
  CellSide, Selections, start_selection, update_selection, selected_text,
}
use oxide_ssh.Input.Keys.{Bytes, Key, KeyInput, key_input, with_control, with_alt, with_shift}
use oxide_ssh.Tabs.Modals.{TabId}
use oxide_ssh.Tabs.Tab.{Tab, TabLocalError, send_text, paste, resize}
use oxide_ssh.Tabs.Collection.{tab, update_tab}
use oxide_ssh.Desktop.Locale.{MessageId}
use oxide_ssh.Desktop.Messages.{local_error_message_id}
use oxide_ssh.Desktop.Form.{parse_u16}
use oxide_ssh.Desktop.View.{AppView}
use oxide_ssh.Desktop.Controls.{key_sent, send_terminal_input}

-- The systems that the source tells apart when it is built.
pub data Platform : Type 0 where
  linux macos windows : Platform

-- The toolkit's `Keystroke`; `platform` is the command key.
pub record Keystroke : Type 0 where
  pub key : Text
  pub key_char : Option Text
  pub control : Bool
  pub alt : Bool
  pub shift : Bool
  pub platform : Bool

abbrev pub named_keys : List (Text × Key)
named_keys =
    (b'e' ∷ b'n' ∷ b't' ∷ b'e' ∷ b'r' ∷ [], Key.enter)
    ∷ (b'b' ∷ b'a' ∷ b'c' ∷ b'k' ∷ b's' ∷ b'p' ∷ b'a' ∷ b'c' ∷ b'e' ∷ [], Key.backspace)
    ∷ (b't' ∷ b'a' ∷ b'b' ∷ [], Key.tab)
    ∷ (b'e' ∷ b's' ∷ b'c' ∷ b'a' ∷ b'p' ∷ b'e' ∷ [], Key.escape)
    ∷ (b'u' ∷ b'p' ∷ [], Key.arrow_up)
    ∷ (b'd' ∷ b'o' ∷ b'w' ∷ b'n' ∷ [], Key.arrow_down)
    ∷ (b'r' ∷ b'i' ∷ b'g' ∷ b'h' ∷ b't' ∷ [], Key.arrow_right)
    ∷ (b'l' ∷ b'e' ∷ b'f' ∷ b't' ∷ [], Key.arrow_left)
    ∷ (b'h' ∷ b'o' ∷ b'm' ∷ b'e' ∷ [], Key.home)
    ∷ (b'e' ∷ b'n' ∷ b'd' ∷ [], Key.end)
    ∷ (b'i' ∷ b'n' ∷ b's' ∷ b'e' ∷ b'r' ∷ b't' ∷ [], Key.insert)
    ∷ (b'd' ∷ b'e' ∷ b'l' ∷ b'e' ∷ b't' ∷ b'e' ∷ [], Key.delete)
    ∷ (b'p' ∷ b'a' ∷ b'g' ∷ b'e' ∷ b'u' ∷ b'p' ∷ [], Key.page_up)
    ∷ (b'p' ∷ b'a' ∷ b'g' ∷ b'e' ∷ b'd' ∷ b'o' ∷ b'w' ∷ b'n' ∷ [], Key.page_down)
    ∷ []

abbrev pub find_key : Text → List (Text × Key) → Option Key
find_key name [] = none
find_key name ((n, k) ∷ rest) = if text_eq name n then some k else find_key name rest

-- `u8::from_str`: the texts that are a `u16`, up to 255.
abbrev pub up_to_255 : Option ℕ → Option ℕ
up_to_255 none = none
up_to_255 (some n) = if leb n 255 then some n else none

unfoldable pub parse_u8 : Text → Option ℕ
parse_u8 t = up_to_255 (parse_u16 t)

abbrev pub function_key : Option ℕ → Option Key
function_key none = none
function_key (some n) = some (Key.function n)

abbrev pub text_key : Option Text → Option Key
text_key none = none
text_key (some t) = some (Key.text t)

-- The last two arms: `key.get(1..)` behind an `f`.
unfoldable pub other_key : Text → Option Text → Option Key
unfolding parse_u8
other_key [] key_char = text_key key_char
other_key (c ∷ cs) key_char = if c == b'f' then function_key (parse_u8 cs) else text_key key_char

abbrev pub or_other : Option Key → Option Key → Option Key
or_other (some key) other = some key
or_other none other = other

-- The `match` on the key; `none` returns.
unfoldable pub pressed_key : Keystroke → Option Key
unfolding other_key
pressed_key k = or_other (find_key k.key named_keys) (other_key k.key k.key_char)

-- The two early returns, which depend on the system.
unfoldable pub is_left_to_platform : Platform → Keystroke → Bool
is_left_to_platform Platform.linux k = false
is_left_to_platform Platform.windows k =
    is_some k.key_char && length k.key == 1 && not k.control && not k.alt
is_left_to_platform Platform.macos k =
    if k.platform
    then true
    else is_some k.key_char && length k.key == 1 && not k.control && not k.alt

unfoldable pub input_of : Keystroke → Key → KeyInput
unfolding key_input with_control with_alt with_shift
input_of k key =
    let plain = key_input key in
    let controlled = if k.control then with_control plain else plain in
    let alted = if k.alt then with_alt controlled else controlled in
    if k.shift then with_shift alted else alted

-- `compose_tab.or_else(|| active)`.
abbrev pub or_active : Option TabId → Option TabId → Option TabId
or_active none active = active
or_active (some id) active = some id

abbrev pub same_size : TerminalSize → TerminalSize → Bool
same_size a b =
    a.columns == b.columns
    && a.rows == b.rows
    && a.pixel_width == b.pixel_width
    && a.pixel_height == b.pixel_height

module _ {T Q : Type 0} where
  unfoldable pub marked_text_range : AppView T Q → Bool
  marked_text_range v = v.composing

  unfoldable pub unmark_text : AppView T Q → AppView T Q
  unmark_text v = record v { composing = false; compose_tab = none }

  unfoldable pub replace_and_mark_text_in_range : AppView T Q → AppView T Q
  replace_and_mark_text_in_range v = record v {
    compose_tab = if not v.composing then v.tabs.active else v.compose_tab;
    composing = true;
  }

  abbrev pub tab_at : AppView T Q → Option TabId → Option (Tab T Q)
  tab_at v none = none
  tab_at v (some id) = tab v.tabs id

  module _ ⦃channel : Channel Q⦄ ⦃em : Emulator T⦄ where
    unfoldable pub handle_key_down : Platform → AppView T Q → Keystroke → AppView T Q
    unfolding is_left_to_platform pressed_key input_of send_terminal_input
    handle_key_down platform v k =
        if is_left_to_platform platform k
        then v
        else elim (pressed_key k) [ none ↦ v | some key ↦ send_terminal_input v (input_of k key) ]

    -- The text for the tab with an identifier, and the end of the composition.
    abbrev pub text_to : AppView T Q → Bytes → Option TabId → AppView T Q
    text_to v text none = v
    text_to v text (some id) = elim (tab v.tabs id) [
      | none ↦ v
      | some t ↦ key_sent v id (send_text t text)
    ]

    unfoldable pub replace_text_in_range : AppView T Q → Bytes → AppView T Q
    unfolding unmark_text
    replace_text_in_range v text =
        text_to (unmark_text v) text (or_active v.compose_tab v.tabs.active)

    abbrev pub pasted :
        AppView T Q → TabId → Option (Tab T Q × Result TabLocalError (Unit {0})) → AppView T Q
    pasted v id none = v
    pasted v id (some (t, ok u)) = record v { tabs = update_tab v.tabs id (λ old. t) }
    pasted v id (some (t, err e)) = record v {
      tabs = update_tab v.tabs id (λ old. t);
      status_message = some (local_error_message_id e);
    }

    abbrev pub paste_to : AppView T Q → Bytes → Option TabId → AppView T Q
    paste_to v text none = v
    paste_to v text (some id) = elim (tab v.tabs id) [
      | none ↦ v
      | some t ↦ pasted v id (paste t text)
    ]

    -- With the text of the clipboard.
    unfoldable pub paste_terminal : AppView T Q → Option Bytes → AppView T Q
    paste_terminal v none = v
    paste_terminal v (some text) = paste_to v text v.tabs.active

    abbrev pub resized :
        AppView T Q → TabId → Tab T Q × Result TabLocalError (Unit {0}) → AppView T Q
    resized v id (t, ok u) = record v { tabs = update_tab v.tabs id (λ old. t) }
    resized v id (t, err e) = record v {
      tabs = update_tab v.tabs id (λ old. t);
      status_message = some MessageId.invalid_profile;
    }

    -- From the size in cells and pixels on.
    unfoldable pub update_terminal_geometry : AppView T Q → TabId → TerminalSize → AppView T Q
    update_terminal_geometry v id size = elim (tab v.tabs id) [
      | none ↦ v
      | some t ↦ if same_size t.terminal.size size then v else resized v id (resize t size)
    ]

module _ {T Q P : Type 0} (sel : Selections T P) where
  abbrev pub on_terminal :
      (TerminalModel T → TerminalModel T) → AppView T Q → Option TabId → AppView T Q
  on_terminal f v none = v
  on_terminal f v (some id) = record v {
    tabs = update_tab v.tabs id (λ t. record t { terminal = f t.terminal });
  }

  unfoldable pub copy_terminal_selection : AppView T Q → Option Bytes
  unfolding selected_text
  copy_terminal_selection v = elim (tab_at v v.tabs.active) [
    | none ↦ none
    | some t ↦ selected_text sel t.terminal
  ]

  unfoldable pub terminal_mouse_down : AppView T Q → Option (ℕ × ℕ × CellSide) → AppView T Q
  unfolding start_selection
  terminal_mouse_down v none = v
  terminal_mouse_down v (some (row, column, side)) =
      if is_some (tab_at v v.tabs.active)
      then record (on_terminal (λ m. start_selection sel m row column side) v v.tabs.active) {
        terminal_selecting = true;
      }
      else v

  unfoldable pub terminal_mouse_move : AppView T Q → Bool → Option (ℕ × ℕ × CellSide) → AppView T Q
  unfolding update_selection
  terminal_mouse_move v dragging none = v
  terminal_mouse_move v dragging (some (row, column, side)) =
      if not v.terminal_selecting
      then v
      else if not dragging
      then v
      else on_terminal (λ m. update_selection sel m row column side) v v.tabs.active

  unfoldable pub terminal_mouse_up : AppView T Q → AppView T Q
  terminal_mouse_up v = record v { terminal_selecting = false }
