-- ===== src/Terminal/Cells.antt =====
-- crates/oxide-ssh-terminal/src/model.rs: the colours and the style of a cell. The flags of
-- alacritty's `Cell` are one Boolean each, a character is its UTF-8 bytes, and a named colour is its
-- number.
use oxide_ssh.Prelude.{ℕ, Bool, false, ◌||◌, Option, if◌then◌else◌}
use oxide_ssh.Input.Keys.{Bytes}
use oxide_ssh.Terminal.Types.{RgbColor, Emulator}
use oxide_ssh.Terminal.Model.{TerminalModel, color}

pub data Color : Type 0 where
  spec : RgbColor → Color
  indexed named : ℕ → Color

pub record Flags : Type 0 where
  pub bold : Bool
  pub dim : Bool
  pub inverse : Bool
  pub italic : Bool
  pub underline : Bool
  pub double_underline : Bool
  pub undercurl : Bool
  pub strikeout : Bool
  pub hidden : Bool
  pub wide_char : Bool
  pub wide_char_spacer : Bool

pub record Cell : Type 0 where
  pub c : Bytes
  pub zerowidth : Option Bytes
  pub fg : Color
  pub bg : Color
  pub flags : Flags

pub record CellRenderStyle : Type 0 where
  pub foreground : RgbColor
  pub background : RgbColor
  pub bold : Bool
  pub italic : Bool
  pub underline : Bool
  pub strikeout : Bool
  pub hidden : Bool
  pub wide : Bool
  pub wide_spacer : Bool

-- What alacritty does to colours: `Rgb * 0.66`, and `NamedColor::to_bright` and `to_dim`.
pub record Shades : Type 0 where
  pub dimmed : RgbColor → RgbColor
  pub to_bright : ℕ → ℕ
  pub to_dim : ℕ → ℕ

module _ {T : Type 0} ⦃em : Emulator T⦄ (shades : Shades) where
  unfoldable pub resolve_color : TerminalModel T → Color → Bool → Bool → RgbColor
  resolve_color m (Color.spec rgb) bold dim = if dim then shades.dimmed rgb else rgb
  resolve_color m (Color.indexed index) bold dim = color m index
  resolve_color m (Color.named index) bold dim =
      color m (if bold then shades.to_bright index else if dim then shades.to_dim index else index)

  unfoldable pub cell_render_style : TerminalModel T → Cell → CellRenderStyle
  unfolding resolve_color
  cell_render_style m cell =
      let flags = cell.flags in
      let foreground = resolve_color m cell.fg flags.bold flags.dim in
      let background = resolve_color m cell.bg false false in
      record {
        foreground = if flags.inverse then background else foreground;
        background = if flags.inverse then foreground else background;
        bold = flags.bold;
        italic = flags.italic;
        underline = flags.underline || flags.double_underline || flags.undercurl;
        strikeout = flags.strikeout;
        hidden = flags.hidden;
        wide = flags.wide_char;
        wide_spacer = flags.wide_char_spacer;
      }
