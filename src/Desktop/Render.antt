-- ===== src/Desktop/Render.antt =====
-- crates/oxide-ssh-desktop/src/app/terminal.rs: what `TerminalElement::prepaint` makes of the terminal's
-- cells: the background segments, the text of each row with its runs, and the place of the cursor. The
-- sizes in pixels are left to the toolkit. A text is its UTF-8 bytes, and a colour its number.
use oxide_ssh.Prelude.{
  ℕ, suc, ◌+◌, ◌-◌, ◌*◌, Bool, true, false, ◌&&◌, ◌||◌, not, List, [], ◌∷◌, ◌++◌, Option, none,
  some, ◌==◌, if◌then◌else◌, leb, length, replicate, update_at,
}
use oxide_ssh.Prelude.Int.{ℤ, pos, negsuc}
use oxide_ssh.Input.Keys.{Bytes}
use oxide_ssh.Terminal.Types.{RgbColor, TerminalColors}
use oxide_ssh.Terminal.Cells.{Cell, CellRenderStyle}
use oxide_ssh.Desktop.Theme.{ResolvedTheme}

unfoldable pub terminal_selection_color : ResolvedTheme → ℕ
terminal_selection_color ResolvedTheme.dark = 0x5a4234
terminal_selection_color ResolvedTheme.light = 0xf2ddd0

-- The three bytes do not overlap, so `|` is `+`.
unfoldable pub to_hex : RgbColor → ℕ
to_hex c = c.red * 65536 + c.green * 256 + c.blue

-- `usize::try_from(line + display_offset)`.
unfoldable pub screen_row : ℤ → ℕ → Option ℕ
screen_row (pos line) offset = some (line + offset)
screen_row (negsuc line) offset = if leb (suc line) offset then some (offset - suc line) else none

-- An item of alacritty's `display_iter`, and its `RenderableContent`; `selection` is the test whether
-- the selected range has the point.
pub record Indexed : Type 0 where
  pub line : ℤ
  pub column : ℕ
  pub cell : Cell

pub data CursorShape : Type 0 where
  block underline beam hollow_block hidden : CursorShape

pub record RenderableContent : Type 0 where
  pub display_iter : List Indexed
  pub selection : Option (ℤ → ℕ → Bool)
  pub display_offset : ℕ
  pub cursor_line : ℤ
  pub cursor_column : ℕ
  pub cursor_shape : CursorShape

-- The tuple `(row, start, end, color)`.
pub record Segment : Type 0 where
  pub row : ℕ
  pub start : ℕ
  pub end : ℕ
  pub color : ℕ

pub record RunKey : Type 0 where
  pub style : CellRenderStyle
  pub selected : Bool

-- A `TextRun`: its length in bytes, and how its text looks.
pub record Look : Type 0 where
  pub bold : Bool
  pub italic : Bool
  pub color : ℕ
  pub underline : Bool
  pub strikethrough : Bool

pub record TextRun : Type 0 where
  pub len : ℕ
  pub look : Look

-- `row_text`, `row_runs` and `row_keys` at one row.
pub record Row : Type 0 where
  pub text : Bytes
  pub runs : List TextRun
  pub key : Option RunKey

pub record Prepaint : Type 0 where
  pub backgrounds : List Segment
  pub background_segment : Option Segment
  pub rows : List Row

-- The derived equality of `RunKey`, with Booleans compared by their exclusive or.
unfoldable pub same : Bool → Bool → Bool
same true b = b
same false b = not b

unfoldable pub same_rgb : RgbColor → RgbColor → Bool
same_rgb a b = a.red == b.red && a.green == b.green && a.blue == b.blue

unfoldable pub same_colors : CellRenderStyle → CellRenderStyle → Bool
unfolding same_rgb
same_colors a b = same_rgb a.foreground b.foreground && same_rgb a.background b.background

unfoldable pub same_face : CellRenderStyle → CellRenderStyle → Bool
unfolding same
same_face a b =
    same a.bold b.bold
    && same a.italic b.italic
    && same a.underline b.underline
    && same a.strikeout b.strikeout

unfoldable pub same_width : CellRenderStyle → CellRenderStyle → Bool
unfolding same
same_width a b = same a.hidden b.hidden && same a.wide b.wide && same a.wide_spacer b.wide_spacer

unfoldable pub same_style : CellRenderStyle → CellRenderStyle → Bool
unfolding same_colors same_face same_width
same_style a b = same_colors a b && same_face a b && same_width a b

unfoldable pub same_run_key : RunKey → RunKey → Bool
unfolding same_style same
same_run_key a b = same_style a.style b.style && same a.selected b.selected

abbrev pub is_key : RunKey → Option RunKey → Bool
is_key key none = false
is_key key (some k) = same_run_key k key

abbrev pub new_segment : ℕ → ℕ → ℕ → Segment
new_segment row column color = record { row = row; start = column; end = column + 1; color = color }

-- The guard of the first arm.
abbrev pub continues : Segment → ℕ → ℕ → ℕ → Bool
continues s row column color = s.row == row && s.end == column && s.color == color

-- The `match` on the segment for a cell whose background is painted, and the branch for one whose
-- background is the default.
unfoldable pub paint_background :
    List Segment × Option Segment → ℕ → ℕ → Option ℕ → List Segment × Option Segment
paint_background (done, none) row column none = (done, none)
paint_background (done, some s) row column none = (done ++ s ∷ [], none)
paint_background (done, none) row column (some color) = (done, some (new_segment row column color))
paint_background (done, some s) row column (some color) =
    if continues s row column color
    then (done, some (record s { end = column + 1 }))
    else (done ++ s ∷ [], some (new_segment row column color))

-- `run.len += byte_len` on `last_mut()`.
unfoldable pub extend_last : ℕ → List TextRun → List TextRun
extend_last n [] = []
extend_last n (r ∷ []) = record r { len = r.len + n } ∷ []
extend_last n (r ∷ s ∷ rs) = r ∷ extend_last n (s ∷ rs)

unfoldable pub push_text : (RunKey → Look) → RunKey → Bytes → Row → Row
unfolding extend_last
push_text look key bytes row =
    if is_key key row.key
    then record row { text = row.text ++ bytes; runs = extend_last (length bytes) row.runs }
    else record {
      text = row.text ++ bytes;
      runs = row.runs ++ record { len = length bytes; look = look key } ∷ [];
      key = some key;
    }

abbrev pub or_no_bytes : Option Bytes → Bytes
or_no_bytes none = []
or_no_bytes (some bytes) = bytes

-- The character of a cell, with what stands above it.
unfoldable pub cell_text : Cell → Bytes
cell_text cell = cell.c ++ or_no_bytes cell.zerowidth

module _ (theme : ResolvedTheme) (colors : TerminalColors) (style_of : Cell → CellRenderStyle)
    (rows columns : ℕ) (content : RenderableContent) where
  unfoldable pub is_selected : Indexed → Bool
  is_selected i = elim content.selection [ none ↦ false | some range ↦ range i.line i.column ]

  unfoldable pub background_of : Indexed → ℕ
  unfolding is_selected terminal_selection_color to_hex
  background_of i =
      if is_selected i then terminal_selection_color theme else to_hex (style_of i.cell).background

  -- The colour that is painted behind a cell, if it is not the default.
  unfoldable pub tint : Indexed → Option ℕ
  unfolding background_of is_selected to_hex
  tint i =
      if is_selected i || not (background_of i == to_hex colors.background)
      then some (background_of i)
      else none

  unfoldable pub look : RunKey → Look
  unfolding to_hex
  look key = record {
    bold = key.style.bold;
    italic = key.style.italic;
    color = to_hex (if key.selected then colors.foreground else key.style.foreground);
    underline = key.style.underline;
    strikethrough = key.style.strikeout;
  }

  -- The row of a cell that is in the grid.
  unfoldable pub place : Indexed → Option ℕ
  unfolding screen_row
  place i = elim (screen_row i.line content.display_offset) [
    | none ↦ none
    | some row ↦ if leb rows row || leb columns i.column then none else some row
  ]

  unfoldable pub run_key : Indexed → RunKey
  unfolding is_selected
  run_key i = record { style = style_of i.cell; selected = is_selected i }

  -- `style.wide_spacer || style.hidden`.
  unfoldable pub is_blank : Indexed → Bool
  is_blank i = (style_of i.cell).wide_spacer || (style_of i.cell).hidden

  unfoldable pub add_text : List Row → ℕ → Indexed → List Row
  unfolding look run_key is_blank push_text cell_text
  add_text table row i =
      if is_blank i
      then table
      else update_at row (push_text look (run_key i) (cell_text i.cell)) table

  -- The body of the loop.
  unfoldable pub paint_cell : Prepaint → Indexed → Option ℕ → Prepaint
  unfolding paint_background add_text tint
  paint_cell p i none = p
  paint_cell p i (some row) =
      let (done, segment) =
        paint_background (p.backgrounds, p.background_segment) row i.column (tint i) in
      record { backgrounds = done; background_segment = segment; rows = add_text p.rows row i }

  unfoldable pub paint_cells : Prepaint → List Indexed → Prepaint
  unfolding paint_cell place
  paint_cells p [] = p
  paint_cells p (i ∷ is) = paint_cells (paint_cell p i (place i)) is

  abbrev pub empty_row : Row
  empty_row = record { text = []; runs = []; key = none }

  abbrev pub blank_table : Prepaint
  blank_table = record {
    backgrounds = [];
    background_segment = none;
    rows = replicate rows empty_row;
  }

  -- `if let Some(segment) = background_segment` behind the loop.
  abbrev pub all_segments : List Segment → Option Segment → List Segment
  all_segments done none = done
  all_segments done (some s) = done ++ s ∷ []

  unfoldable pub painted : List Segment × List Row
  unfolding paint_cells
  painted =
      let p = paint_cells blank_table content.display_iter in
      (all_segments p.backgrounds p.background_segment, p.rows)

  abbrev pub is_hidden : CursorShape → Bool
  is_hidden CursorShape.hidden = true
  is_hidden _ = false

  -- The cell of the cursor, where one is drawn.
  unfoldable pub cursor_cell : Option (ℕ × ℕ)
  unfolding screen_row
  cursor_cell = elim (screen_row content.cursor_line content.display_offset) [
    | none ↦ none
    | some row ↦
        if leb rows row || leb columns content.cursor_column
        then none
        else if is_hidden content.cursor_shape
        then none
        else some (row, content.cursor_column)
  ]
