-- ===== src/Desktop/PaintLaws.antt =====
-- crates/oxide-ssh-desktop/src/app/terminal.rs: the background segments against the cells.
use oxide_ssh.Prelude.{
  ℕ, zero, suc, ◌+◌, ◌-◌, ◌≤◌, ◌≡◌, refl, sym, ap, ◌∙◌, inl, inr, List, [], ◌∷◌, ◌++◌, Option, none,
  some, append-nil, append_assoc, arith, Bool-cases,
}
use oxide_ssh.Terminal.Types.{TerminalColors}
use oxide_ssh.Terminal.Cells.{Cell, CellRenderStyle}
use oxide_ssh.Desktop.Theme.{ResolvedTheme}
use oxide_ssh.Desktop.Render.{
  Indexed, RenderableContent, Segment, Prepaint, new_segment, continues, paint_background, tint,
  place, paint_cell, paint_cells, painted, all_segments, blank_table,
}

-- A painted cell: its row, its column and its colour.
abbrev pub PaintedCell : Type 0
PaintedCell = ℕ × ℕ × ℕ

-- `n` cells of a row from a column on.
abbrev pub cells_from : ℕ → ℕ → ℕ → ℕ → List PaintedCell
cells_from row color column zero = []
cells_from row color column (suc n) = (row, column, color) ∷ cells_from row color (suc column) n

-- The cells that a segment covers, and those that a list of segments covers, in order.
abbrev pub covered : Segment → List PaintedCell
covered s = cells_from s.row s.color s.start (s.end - s.start)

abbrev pub all_covered : List Segment → List PaintedCell
all_covered [] = []
all_covered (s ∷ ss) = covered s ++ all_covered ss

abbrev pub tinted : ℕ → ℕ → Option ℕ → List PaintedCell
tinted row column none = []
tinted row column (some color) = (row, column, color) ∷ []

cells_from-suc :
    (row color column n : ℕ)
    → cells_from row color column (suc n)
      ≡ cells_from row color column n ++ (row, column + n, color) ∷ []
cells_from-suc row color column zero = ground arith
cells_from-suc row color column (suc n) =
    let e : suc column + n ≡ column + suc n = omega arith in
    ap (◌∷◌ (row, column, color)) (
      cells_from-suc row color (suc column) n
      ∙ ap (λ k. cells_from row color (suc column) n ++ (row, k, color) ∷ []) e)

all_covered-append :
    (xs ys : List Segment) → all_covered (xs ++ ys) ≡ all_covered xs ++ all_covered ys
all_covered-append [] ys = refl
all_covered-append (x ∷ xs) ys =
    rw (all_covered-append xs ys) (sym (append_assoc (covered x) (all_covered xs) (all_covered ys)))

abbrev Open : Option Segment → Type 0
Open none = Unit
Open (some s) = s.start ≤ s.end

abbrev pending : Option Segment → List PaintedCell
pending none = []
pending (some s) = covered s

covered_new :
    (row column color : ℕ) → covered (new_segment row column color) ≡ (row, column, color) ∷ []
covered_new row column color =
    let e : column + 1 - column ≡ suc zero = omega arith in ap (cells_from row color column) e

covered_longer :
    (s : Segment)
    → s.start ≤ s.end
    → covered (record s { end = s.end + 1 }) ≡ covered s ++ (s.row, s.end, s.color) ∷ []
covered_longer s h =
    let e : s.end + 1 - s.start ≡ suc (s.end - s.start) = omega arith in
    let k : s.start + (s.end - s.start) ≡ s.end = omega arith in
    ap (cells_from s.row s.color s.start) e
    ∙ cells_from-suc s.row s.color s.start (s.end - s.start)
    ∙ ap (λ c. covered s ++ (s.row, c, s.color) ∷ []) k

abbrev state_cells : List Segment × Option Segment → List PaintedCell
state_cells (done, s) = all_covered done ++ pending s

abbrev IsOpen : List Segment × Option Segment → Type 0
IsOpen (done, s) = Open s

close_segment :
    (done : List Segment) (s : Segment) (cells : List PaintedCell)
    → all_covered (done ++ s ∷ []) ++ cells ≡ all_covered done ++ (covered s ++ cells)
close_segment done s cells = simp (all_covered-append, append-nil, append_assoc)

-- One cell adds itself to what is covered, if it is painted.
paint_step :
    (done : List Segment) (s : Option Segment) (row column : ℕ) (t : Option ℕ)
    → Open s
    → (state_cells (paint_background (done, s) row column t)
        ≡ all_covered done ++ (pending s ++ tinted row column t))
      × IsOpen (paint_background (done, s) row column t)
unfolding paint_background
paint_step done none row column none h = (refl, tt)
paint_step done (some s) row column none h = (close_segment done s [], tt)
paint_step done none row column (some color) h =
    (ap (all_covered done ++◌) (covered_new row column color), omega arith)
paint_step done (some s) row column (some color) h =
    elim (Bool-cases (continues s row column color)) [
      | inl more ↦
          let er : s.row ≡ row = ground arith in
          let ec : s.end ≡ column = ground arith in
          let ek : s.color ≡ color = ground arith in
          rw more (
            rw (← er, ← ec, ← ek) (ap (all_covered done ++◌) (covered_longer s h)),
            omega (arith, ec),
          )
      | inr less ↦ rw less (
        close_segment done s _
            ∙ ap (λ c. all_covered done ++ (covered s ++ c)) (covered_new row column color),
        omega arith,
      )
    ]

module _ (theme : ResolvedTheme) (colors : TerminalColors) (style_of : Cell → CellRenderStyle)
    (rows columns : ℕ) (content : RenderableContent) where
  -- The cells that are in the grid and have a colour of their own, in the order of the content.
  abbrev pub tinted_at : Indexed → Option ℕ → List PaintedCell
  tinted_at i none = []
  tinted_at i (some row) = tinted row i.column (tint theme colors style_of rows columns content i)

  abbrev pub tinted_cells : List Indexed → List PaintedCell
  tinted_cells [] = []
  tinted_cells (i ∷ is) =
      tinted_at i (place theme colors style_of rows columns content i) ++ tinted_cells is

  abbrev cells_of : Prepaint → List PaintedCell
  cells_of p = state_cells (p.backgrounds, p.background_segment)

  paint_cell_lem :
      (p : Prepaint) (i : Indexed) (o : Option ℕ)
      → Open p.background_segment
      → (cells_of (paint_cell theme colors style_of rows columns content p i o)
          ≡ cells_of p ++ tinted_at i o)
        × Open (paint_cell theme colors style_of rows columns content p i o).background_segment
  unfolding paint_cell
  paint_cell_lem p i none h = (sym (append-nil (cells_of p)), h)
  paint_cell_lem p i (some row) h =
      let (e, k) =
        paint_step p.backgrounds p.background_segment row i.column
          (tint theme colors style_of rows columns content i) h in
      (e ∙ sym (append_assoc (all_covered p.backgrounds) (pending p.background_segment) _), k)

  paint_cells_lem :
      (p : Prepaint) (is : List Indexed)
      → Open p.background_segment
      → cells_of (paint_cells theme colors style_of rows columns content p is)
        ≡ cells_of p ++ tinted_cells is
  unfolding paint_cells
  paint_cells_lem p [] h = sym (append-nil (cells_of p))
  paint_cells_lem p (i ∷ is) h =
      let o = place theme colors style_of rows columns content i in
      let (e, k) = paint_cell_lem p i o h in
      paint_cells_lem (paint_cell theme colors style_of rows columns content p i o) is k
      ∙ ap (λ cells. cells ++ tinted_cells is) e
      ∙ append_assoc (cells_of p) (tinted_at i o) (tinted_cells is)

  all_segments_lem :
      (done : List Segment) (s : Option Segment)
      → all_covered (all_segments theme colors style_of rows columns content done s)
        ≡ state_cells (done, s)
  all_segments_lem done none = sym (append-nil (all_covered done))
  all_segments_lem done (some s) =
      all_covered-append done (s ∷ []) ∙ ap (all_covered done ++◌) (append-nil (covered s))

  -- The background segments cover the cells of the content that are in the grid and are selected or
  -- have a background of their own, each once, in order and with its colour, and cover no other cell.
  pub painted-tinted_cells :
      all_covered (painted theme colors style_of rows columns content).0
      ≡ tinted_cells content.display_iter
  unfolding painted
  painted-tinted_cells =
      let p =
        paint_cells theme colors style_of rows columns content
          (blank_table theme colors style_of rows columns content) content.display_iter in
      all_segments_lem p.backgrounds p.background_segment
      ∙ paint_cells_lem (blank_table theme colors style_of rows columns content)
          content.display_iter tt
