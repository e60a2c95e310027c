-- ===== src/Terminal/SizeLaws.antt =====
-- `window_size`: what a terminal tells the program on the other side of its size.
use native.Mathlib.Nat.{mul-le-mul, mul-div-le, le_trans}
use oxide_ssh.Prelude.{ℕ, ◌*◌, ◌/◌, ◌^◌, ◌≤◌, ◌<◌, arith, ◌≡◌}
use oxide_ssh.Terminal.Types.{TerminalSize}
use oxide_ssh.Terminal.Model.{window_size, to_u16, as_u32, u16_max}

to_u16_bound : (n : ℕ) → to_u16 n ≤ u16_max
to_u16_bound n = ground arith

to_u16_le : (n : ℕ) → to_u16 n ≤ n
to_u16_le n = ground arith

as_u32-eq : (n : ℕ) → n < 2 ^ 32 → as_u32 n ≡ n
as_u32-eq n h = omega arith

cells_fit :
    (cells pixels : ℕ) → cells < 2 ^ 32 → to_u16 cells * to_u16 (pixels / as_u32 cells) ≤ pixels
cells_fit cells pixels h =
    rw (as_u32-eq cells h) (
      le_trans (mul-le-mul (to_u16_le cells) (to_u16_le (pixels / cells)))
        (mul-div-le pixels cells))

-- For a size with columns and rows, fewer than 2 ^ 32 of each, neither division is by zero, the
-- numbers reported fit 16 bits each, and the cells that they describe fit the window's pixels.
pub window_size_fits :
    (size : TerminalSize)
    → 0 < size.columns
    → size.columns < 2 ^ 32
    → 0 < size.rows
    → size.rows < 2 ^ 32
    → let w = window_size size in
      ((0 < as_u32 size.columns) × (0 < as_u32 size.rows))
      × ((w.num_cols ≤ u16_max)
          × (w.num_lines ≤ u16_max)
          × (w.cell_width ≤ u16_max)
          × (w.cell_height ≤ u16_max))
      × (w.num_cols * w.cell_width ≤ size.pixel_width)
      × (w.num_lines * w.cell_height ≤ size.pixel_height)
unfolding window_size
window_size_fits size pc hc pr hr = (
  (rw (as_u32-eq size.columns hc) pc, rw (as_u32-eq size.rows hr) pr),
  (
    to_u16_bound size.columns,
    to_u16_bound size.rows,
    to_u16_bound (size.pixel_width / as_u32 size.columns),
    to_u16_bound (size.pixel_height / as_u32 size.rows),
  ),
  cells_fit size.columns size.pixel_width hc,
  cells_fit size.rows size.pixel_height hr,
)
