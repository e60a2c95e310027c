-- ===== src/Desktop/TerminalExamples.antt =====
-- The terminal's view at concrete inputs: tests and witnesses.
use oxide_ssh.Prelude.{
  ℕ, ◌≡◌, refl, true, false, [], ◌∷◌, none, some, get_elem?, arith, ◌==◌, if◌then◌else◌,
}
use oxide_ssh.Prelude.Int.{pos, negsuc}
use oxide_ssh.Terminal.Types.{rgb, default_colors}
use oxide_ssh.Terminal.Cells.{Cell, CellRenderStyle, Color, Flags}
use oxide_ssh.Tabs.Examples.{quiet_emulator, room_channel}
use oxide_ssh.Desktop.Theme.{ResolvedTheme}
use oxide_ssh.Desktop.Render.{
  Indexed, RenderableContent, CursorShape, Row, painted, paint_cells, paint_cell, place,
  cursor_cell,
}
use oxide_ssh.Desktop.PaintLaws.{all_covered, tinted_cells, painted-tinted_cells}
use oxide_ssh.Desktop.RunLaws.{spread}
use oxide_ssh.Desktop.RowLaws.{row_text, row_looks, painted-row}
use oxide_ssh.Desktop.Keyboard.{
  Platform, Keystroke, handle_key_down, replace_and_mark_text_in_range, replace_text_in_range,
  text_to, unmark_text,
}
use oxide_ssh.Desktop.KeyboardLaws.{
  composed, tab_chosen, after_all, composed_text, chord, handle_key_down-letter,
}
use oxide_ssh.Desktop.Controls.{key_sent}
use oxide_ssh.Tabs.Tab.{send_bytes}
use oxide_ssh.Tabs.Examples.{shell}
use oxide_ssh.Desktop.ControlExamples.{view}

abbrev plain : Flags
plain = record {
  bold = false;
  dim = false;
  inverse = false;
  italic = false;
  underline = false;
  double_underline = false;
  undercurl = false;
  strikeout = false;
  hidden = false;
  wide_char = false;
  wide_char_spacer = false;
}

abbrev letter : ℕ → Cell
letter c = record {
  c = c ∷ [];
  zerowidth = none;
  fg = Color.named 256;
  bg = Color.indexed 1;
  flags = plain;
}

abbrev red_style : Cell → CellRenderStyle
red_style cell = record {
  foreground = rgb 1 2 3;
  background = rgb 200 0 0;
  bold = false;
  italic = false;
  underline = false;
  strikeout = false;
  hidden = false;
  wide = false;
  wide_spacer = false;
}

-- Two cells beside one another, the second selected, and one above the screen.
abbrev content : RenderableContent
content = record {
  display_iter =
      record { line = negsuc 4; column = 0; cell = letter b'x' }
      ∷ record { line = negsuc 0; column = 0; cell = letter b'l' }
      ∷ record { line = negsuc 0; column = 1; cell = letter b's' }
      ∷ [];
  selection = some (λ line column. column == 1);
  display_offset = 2;
  cursor_line = pos 0;
  cursor_column = 1;
  cursor_shape = CursorShape.block;
}

painted-tinted_cells_example :
    all_covered (painted ResolvedTheme.dark default_colors red_style 3 2 content).0
    ≡ tinted_cells ResolvedTheme.dark default_colors red_style 3 2 content content.display_iter
painted-tinted_cells_example =
    painted-tinted_cells ResolvedTheme.dark default_colors red_style 3 2 content

painted-row_example :
    (w : Row) × (get_elem? (painted ResolvedTheme.dark default_colors red_style 3 2 content).1 1
      ≡ some w)
    × (w.text
        ≡ row_text ResolvedTheme.dark default_colors red_style 3 2 content 1 content.display_iter)
    × (spread w.runs
        ≡ row_looks ResolvedTheme.dark default_colors red_style 3 2 content 1 content.display_iter)
painted-row_example =
    painted-row ResolvedTheme.dark default_colors red_style 3 2 content 1 (omega arith)

texts :
    row_text ResolvedTheme.dark default_colors red_style 3 2 content 1 content.display_iter
    ≡ b'l' ∷ b's' ∷ []
unfolding place oxide_ssh.Desktop.Render.is_blank oxide_ssh.Desktop.Render.cell_text
    oxide_ssh.Desktop.Render.screen_row
texts = refl

composed_text_example :
    let w = after_all (replace_and_mark_text_in_range view) (tab_chosen 7 ∷ composed ∷ []) in
    let u = replace_text_in_range w (b'k' ∷ []) in
    (u ≡ text_to (unmark_text w) (b'k' ∷ []) (some 9))
    × (u.composing ≡ false)
    × (u.compose_tab ≡ none)
composed_text_example = composed_text view 9 (tab_chosen 7 ∷ composed ∷ []) (b'k' ∷ []) refl refl

abbrev control_alt_c : Keystroke
control_alt_c = record {
  key = b'c' ∷ [];
  key_char = some (b'c' ∷ []);
  control = true;
  alt = true;
  shift = false;
  platform = false;
}

handle_key_down-letter_example : handle_key_down Platform.linux view control_alt_c ≡ (
    if ◌==◌ b'c' b'f'
    then view
    else key_sent view 9 (send_bytes (shell 9 none) (chord true true b'c')))
handle_key_down-letter_example =
    handle_key_down-letter Platform.linux view control_alt_c b'c' 9 (shell 9 none) refl refl refl
      refl refl refl refl refl
