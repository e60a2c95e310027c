-- ===== src/Terminal/Examples.antt =====
-- The colours and sizes of a terminal at concrete inputs.
use oxide_ssh.Prelude.{some, ◌≡◌, refl, arith}
use oxide_ssh.Terminal.Types.{TerminalSize, RgbColor, rgb}
use oxide_ssh.Terminal.Colors.{xterm_color}
use oxide_ssh.Terminal.ColorLaws.{InBytes, xterm_color-InBytes}

xterm_color-InBytes_example : (c : RgbColor) × (xterm_color 255 ≡ some c) × InBytes c
xterm_color-InBytes_example = xterm_color-InBytes 255 (omega arith)

white : xterm_color 255 ≡ some (rgb 238 238 238)
unfolding xterm_color
white = refl

abbrev size : TerminalSize
size = record { columns = 80; rows = 24; pixel_width = 650; pixel_height = 390 }
