-- ===== src/Terminal/Model.antt =====
-- crates/oxide-ssh-terminal/src/model.rs: `TerminalModel`, as far as the tabs use it.
use oxide_ssh.Prelude.{
  ℕ, ◌/◌, ◌%◌, ◌^◌, Bool, true, false, ◌&&◌, not, List, [], ◌∷◌, ◌++◌, Option, none, some, Result,
  ok, err, leb, ltb, ◌==◌, if◌then◌else◌, get_or, any,
}
use oxide_ssh.Input.Keys.{Bytes, TermMode}
use oxide_ssh.Terminal.Types.{
  TerminalSize, RgbColor, rgb, TerminalColors, TerminalAction, write_back, TerminalError,
  invalid_size, WindowSize, Event, pty_write, color_request, text_area_size_request, ignored,
  Emulator, is_valid,
}
use oxide_ssh.Terminal.Colors.{xterm_color}

-- The listener pushes to `pending_events`; the emulator and its parser are `term`.
pub record TerminalModel (T : Type 0) : Type 0 where
  pub term : T
  pub pending_events : List Event
  pub size : TerminalSize
  pub default_colors : TerminalColors

abbrev pub u16_max : ℕ
u16_max = 65535

-- `u16::try_from(n).unwrap_or(u16::MAX)`.
abbrev pub to_u16 : ℕ → ℕ
to_u16 n = if leb n u16_max then n else u16_max

-- `n as u32`.
abbrev pub as_u32 : ℕ → ℕ
as_u32 n = n % 2 ^ 32

-- The two divisions panic at 0, where `/` gives 0.
unfoldable pub window_size : TerminalSize → WindowSize
window_size size = record {
  num_lines = to_u16 size.rows;
  num_cols = to_u16 size.columns;
  cell_width = to_u16 (size.pixel_width / as_u32 size.columns);
  cell_height = to_u16 (size.pixel_height / as_u32 size.rows);
}

-- A colour that is there; the arms that read it are in bounds.
abbrev or_black : Option RgbColor → RgbColor
or_black none = rgb 0 0 0
or_black (some c) = c

-- The `match` of `color`, from the theme's colours.
unfoldable pub default_color : TerminalColors → ℕ → RgbColor
default_color colors index =
    if ltb index 16
    then get_or colors.ansi index (rgb 0 0 0)
    else if ltb index 256
    then or_black (xterm_color index)
    else if index == 256
    then colors.foreground
    else if index == 267
    then colors.foreground
    else if index == 257
    then colors.background
    else if index == 268
    then colors.background
    else if index == 258
    then colors.cursor
    else if leb 259 index && leb index 266
    then colors.foreground
    else colors.background

abbrev pub is_wakeup : TerminalAction → Bool
is_wakeup TerminalAction.wakeup = true
is_wakeup _ = false

abbrev is_empty : Bytes → Bool
is_empty [] = true
is_empty (b ∷ bs) = false

-- The last statement of `process_output`.
unfoldable pub with_wakeup : Bytes → List TerminalAction → List TerminalAction
with_wakeup bytes actions =
    if not (is_empty bytes) && not (any is_wakeup actions)
    then actions ++ TerminalAction.wakeup ∷ []
    else actions

unfoldable pub set_default_colors :
    {T : Type 0} → TerminalModel T → TerminalColors → TerminalModel T
set_default_colors m colors = record m { default_colors = colors }

module _ {T : Type 0} ⦃em : Emulator T⦄ where
  unfoldable pub with_colors :
      TerminalSize → TerminalColors → Result TerminalError (TerminalModel T)
  unfolding is_valid
  with_colors size colors =
      if not (is_valid em size)
      then err invalid_size
      else let (t, events) = em.new size in
        ok (record { term = t; pending_events = events; size = size; default_colors = colors })

  -- A colour that the program on the other side has set comes first.
  unfoldable pub color : TerminalModel T → ℕ → RgbColor
  color m index = elim (if ltb index em.color_count then em.colors m.term index else none) [
    | some c ↦ c
    | none ↦ default_color m.default_colors index
  ]

  -- The `match` on an event: the actions that it adds.
  unfoldable pub event_actions : TerminalModel T → Event → List TerminalAction
  event_actions m (pty_write text) = write_back text ∷ []
  event_actions m (color_request index formatter) = write_back (formatter (color m index)) ∷ []
  event_actions m (text_area_size_request formatter) =
      write_back (formatter (window_size m.size)) ∷ []
  event_actions m Event.bell = TerminalAction.bell ∷ []
  event_actions m Event.wakeup = TerminalAction.wakeup ∷ []
  event_actions m ignored = []

  -- The `for` loop over the pending events.
  unfoldable pub drain_events : TerminalModel T → List Event → List TerminalAction
  drain_events m [] = []
  drain_events m (e ∷ es) = event_actions m e ++ drain_events m es

  unfoldable pub process_output : TerminalModel T → Bytes → TerminalModel T × List TerminalAction
  process_output m bytes =
      let (t, first) = em.advance m.term bytes in
      let (u, second) = em.stop_sync t in
      let after = record m { term = u; pending_events = [] } in
      (after, with_wakeup bytes (drain_events after (m.pending_events ++ first ++ second)))

  unfoldable pub resize : TerminalModel T → TerminalSize → Result TerminalError (TerminalModel T)
  unfolding is_valid
  resize m size =
      if not (is_valid em size)
      then err invalid_size
      else let (t, events) = em.resize m.term size in
        ok (record m { term = t; pending_events = m.pending_events ++ events; size = size })

  abbrev pub mode : TerminalModel T → TermMode
  mode m = em.mode m.term
