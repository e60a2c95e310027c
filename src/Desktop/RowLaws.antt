-- ===== src/Desktop/RowLaws.antt =====
-- crates/oxide-ssh-desktop/src/app/terminal.rs: the rows of the screen against the cells.
use oxide_ssh.Prelude.{
  ℕ, ◌<◌, ◌≡◌, refl, sym, ap, ◌∙◌, inl, inr, List, [], ◌∷◌, ◌++◌, Option, none, some, ◌==◌,
  append-nil, append_assoc, Bool-cases, ==_iff, length, replicate, get_elem?, if◌then◌else◌,
  get_elem?-update_at_self, get_elem?-update_at_ne, get_elem?-replicate,
}
use oxide_ssh.Input.Keys.{Bytes}
use oxide_ssh.Terminal.Types.{TerminalColors}
use oxide_ssh.Terminal.Cells.{Cell, CellRenderStyle}
use oxide_ssh.Desktop.Theme.{ResolvedTheme}
use oxide_ssh.Desktop.Render.{
  Indexed, RenderableContent, Look, Row, Prepaint, push_text, cell_text, look, place, run_key,
  is_blank, add_text, paint_cell, paint_cells, painted, blank_table, empty_row,
}
use oxide_ssh.Desktop.RunLaws.{spread, IsKept, push_text_lem}

module _ (theme : ResolvedTheme) (colors : TerminalColors) (style_of : Cell → CellRenderStyle)
    (rows columns : ℕ) (content : RenderableContent) (r : ℕ) where
  abbrev place_of : Indexed → Option ℕ
  place_of i = place theme colors style_of rows columns content i

  abbrev look_of : Indexed → Look
  look_of i =
      look theme colors style_of rows columns content
        (run_key theme colors style_of rows columns content i)

  -- The texts of the cells that stand in the row and are not blank.
  abbrev pub text_at : Indexed → Option ℕ → Bytes
  text_at i none = []
  text_at i (some row) =
      if row == r
      then if is_blank theme colors style_of rows columns content i then [] else cell_text i.cell
      else []

  abbrev pub row_text : List Indexed → Bytes
  row_text [] = []
  row_text (i ∷ is) = text_at i (place theme colors style_of rows columns content i) ++ row_text is

  -- Their looks, byte by byte.
  abbrev pub row_looks : List Indexed → List Look
  row_looks [] = []
  row_looks (i ∷ is) =
      replicate (length (text_at i (place theme colors style_of rows columns content i))) (
        look theme colors style_of rows columns content
          (run_key theme colors style_of rows columns content i))
      ++ row_looks is

  abbrev Grown : Row → Row → Bytes → List Look → Type 0
  Grown w w' bytes looks =
      (w'.text ≡ w.text ++ bytes)
      × (spread w'.runs ≡ spread w.runs ++ looks)
      × IsKept (look theme colors style_of rows columns content) w' w'.key

  unmoved :
      (w : Row) → IsKept (look theme colors style_of rows columns content) w w.key → Grown w w [] []
  unmoved w h = (sym (append-nil w.text), sym (append-nil (spread w.runs)), h)

  paint_cell-row :
      (p : Prepaint) (w : Row) (i : Indexed) (o : Option ℕ)
      → get_elem? p.rows r ≡ some w
      → IsKept (look theme colors style_of rows columns content) w w.key
      → (w' : Row) × (get_elem? (paint_cell theme colors style_of rows columns content p i o).rows r
          ≡ some w')
        × Grown w w' (text_at i o) (replicate (length (text_at i o)) (look_of i))
  unfolding paint_cell add_text
  paint_cell-row p w i none g h = (w, g, unmoved w h)
  paint_cell-row p w i (some row) g h =
      elim (Bool-cases (is_blank theme colors style_of rows columns content i)) [
        | inl blank ↦ elim (Bool-cases (row == r)) [
          | inl here ↦ rw (here, blank) (w, g, unmoved w h)
          | inr there ↦ rw (there, blank) (w, g, unmoved w h)
        ]
        | inr shown ↦ elim (Bool-cases (row == r)) [
          | inl here ↦
              let e : row ≡ r = (==_iff row r).0 here in
              let f = look theme colors style_of rows columns content in
              let key = run_key theme colors style_of rows columns content i in
              let (spreads, kept, texts) = push_text_lem f key (cell_text i.cell) w h in
              rw (here, shown)
                (
                  push_text f key (cell_text i.cell) w,
                  rw e (get_elem?-update_at_self r (push_text f key (cell_text i.cell)) p.rows g),
                  (texts, spreads, kept),
                )
          | inr there ↦
              let e : ¬ (row ≡ r) = λ k. cc ((==_iff row r).1 k) in
              rw (there, shown) (w, get_elem?-update_at_ne row r _ p.rows e ∙ g, unmoved w h)
        ]
      ]

  joined_growth :
      (w1 w2 w3 : Row) (b1 b2 : Bytes) (l1 l2 : List Look)
      → Grown w1 w2 b1 l1
      → Grown w2 w3 b2 l2
      → Grown w1 w3 (b1 ++ b2) (l1 ++ l2)
  joined_growth w1 w2 w3 b1 b2 l1 l2 (t1, s1, k1) (t2, s2, k2) = (
    t2 ∙ ap (λ t. t ++ b2) t1 ∙ append_assoc w1.text b1 b2,
    s2 ∙ ap (λ s. s ++ l2) s1 ∙ append_assoc (spread w1.runs) l1 l2,
    k2,
  )

  paint_cells-row :
      (p : Prepaint) (w : Row) (is : List Indexed)
      → get_elem? p.rows r ≡ some w
      → IsKept (look theme colors style_of rows columns content) w w.key
      → (w' : Row) × (get_elem? (paint_cells theme colors style_of rows columns content p is).rows r
          ≡ some w')
        × Grown w w' (row_text is) (row_looks is)
  unfolding paint_cells
  paint_cells-row p w [] g h = (w, g, unmoved w h)
  paint_cells-row p w (i ∷ is) g h =
      let (u, gu, grown) = paint_cell-row p w i (place_of i) g h in
      let (v, gv, rest) =
        paint_cells-row (paint_cell theme colors style_of rows columns content p i (place_of i)) u
          is gu grown.2 in
      (v, gv, joined_growth w u v _ _ _ _ grown rest)

  -- In each row of the screen stands the text of the cells of that row that are not blank, in order, and
  -- its runs give each byte of it the look of its cell.
  pub painted-row :
      r < rows
      → (w : Row) × (get_elem? (painted theme colors style_of rows columns content).1 r ≡ some w)
        × (w.text ≡ row_text content.display_iter)
        × (spread w.runs ≡ row_looks content.display_iter)
  unfolding painted
  painted-row h =
      let (w, g, grown) =
        paint_cells-row (blank_table theme colors style_of rows columns content)
          (empty_row theme colors style_of rows columns content) content.display_iter
          (get_elem?-replicate rows r (empty_row theme colors style_of rows columns content) h)
          refl in
      (w, g, grown.0, grown.1)
