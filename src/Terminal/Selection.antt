-- ===== src/Terminal/Selection.antt =====
-- crates/oxide-ssh-terminal/src/model.rs: the selection in the viewport. Points and selections are
-- alacritty's.
use oxide_ssh.Prelude.{ℕ, ◌-◌, Bool, Option, if◌then◌else◌, min}
use oxide_ssh.Input.Keys.{Bytes}
use oxide_ssh.Terminal.Model.{TerminalModel}

pub data CellSide : Type 0 where
  left right : CellSide

-- The part of `Term` that selections go through: a point of the viewport at the present scrolling,
-- a new selection, its update where there is one, and its text.
pub record Selections (T P : Type 0) : Type 0 where
  pub viewport_to_point : T → ℕ → ℕ → P
  pub select : T → P → CellSide → T
  pub update : T → P → CellSide → T
  pub has_selection : T → Bool
  pub clear : T → T
  pub selection_to_string : T → Option Bytes

module _ {T P : Type 0} (sel : Selections T P) where
  unfoldable pub viewport_point : TerminalModel T → ℕ → ℕ → P
  viewport_point m row column =
      sel.viewport_to_point m.term (min row (m.size.rows - 1)) (min column (m.size.columns - 1))

  unfoldable pub start_selection : TerminalModel T → ℕ → ℕ → CellSide → TerminalModel T
  unfolding viewport_point
  start_selection m row column side = record m {
    term = sel.select m.term (viewport_point m row column) side;
  }

  unfoldable pub update_selection : TerminalModel T → ℕ → ℕ → CellSide → TerminalModel T
  unfolding viewport_point
  update_selection m row column side =
      if sel.has_selection m.term
      then record m { term = sel.update m.term (viewport_point m row column) side }
      else m

  unfoldable pub clear_selection : TerminalModel T → TerminalModel T
  clear_selection m = record m { term = sel.clear m.term }

  unfoldable pub selected_text : TerminalModel T → Option Bytes
  selected_text m = sel.selection_to_string m.term
