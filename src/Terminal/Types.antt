-- ===== src/Terminal/Types.antt =====
-- crates/oxide-ssh-terminal/src/model.rs: sizes, colours, actions, and what the model takes from the
-- alacritty_terminal crate.
use oxide_ssh.Prelude.{ℕ, Bool, ◌&&◌, List, [], ◌∷◌, Option, leb}
use oxide_ssh.Input.Keys.{Bytes, TermMode}

pub record TerminalSize : Type 0 where
  pub columns : ℕ
  pub rows : ℕ
  pub pixel_width : ℕ
  pub pixel_height : ℕ

-- `RgbColor`, and alacritty's `Rgb`, which has the same three bytes.
pub record RgbColor : Type 0 where
  pub red : ℕ
  pub green : ℕ
  pub blue : ℕ

abbrev pub rgb : ℕ → ℕ → ℕ → RgbColor
rgb r g b = record { red = r; green = g; blue = b }

pub record TerminalColors : Type 0 where
  pub foreground : RgbColor
  pub background : RgbColor
  pub cursor : RgbColor
  pub ansi : List RgbColor

-- The `Default` of the source.
unfoldable pub default_colors : TerminalColors
default_colors = record {
  foreground = rgb 0xe6 0xe8 0xeb;
  background = rgb 0x11 0x13 0x18;
  cursor = rgb 0xe6 0xe8 0xeb;
  ansi =
      rgb 0x1b 0x1d 0x23
      ∷ rgb 0xe0 0x6c 0x75
      ∷ rgb 0x98 0xc3 0x79
      ∷ rgb 0xe5 0xc0 0x7b
      ∷ rgb 0x61 0xaf 0xef
      ∷ rgb 0xc6 0x78 0xdd
      ∷ rgb 0x56 0xb6 0xc2
      ∷ rgb 0xab 0xb2 0xbf
      ∷ rgb 0x5c 0x63 0x70
      ∷ rgb 0xff 0x7b 0x86
      ∷ rgb 0xb3 0xe9 0x8c
      ∷ rgb 0xff 0xd6 0x8a
      ∷ rgb 0x76 0xc7 0xff
      ∷ rgb 0xd9 0x9b 0xff
      ∷ rgb 0x70 0xe1 0xed
      ∷ rgb 0xf5 0xf7 0xfa
      ∷ [];
}

pub data TerminalAction : Type 0 where
  write_back : Bytes → TerminalAction
  bell wakeup : TerminalAction

pub data TerminalError : Type 0 where
  invalid_size : TerminalError

pub record WindowSize : Type 0 where
  pub num_lines : ℕ
  pub num_cols : ℕ
  pub cell_width : ℕ
  pub cell_height : ℕ

-- alacritty's `Event`; those that the source ignores are one constructor.
pub data Event : Type 0 where
  pty_write : Bytes → Event
  color_request : ℕ → (RgbColor → Bytes) → Event
  text_area_size_request : (WindowSize → Bytes) → Event
  bell wakeup ignored : Event

-- The emulator, `Term` with its `Processor`, as the source uses it. Each operation that takes
-- `&mut Term` gives the events that it sends to the listener, in order.
pub record Emulator (T : Type 0) : Type 0 where
  pub min_columns : ℕ
  pub min_screen_lines : ℕ
  pub color_count : ℕ
  pub new : TerminalSize → T × List Event
  pub advance : T → Bytes → T × List Event
  pub stop_sync : T → T × List Event
  pub resize : T → TerminalSize → T × List Event
  pub mode : T → TermMode
  pub colors : T → ℕ → Option RgbColor

unfoldable pub is_valid : {T : Type 0} → Emulator T → TerminalSize → Bool
is_valid em size = leb em.min_columns size.columns && leb em.min_screen_lines size.rows
