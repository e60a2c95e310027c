-- ===== src/Terminal/Colors.antt =====
-- crates/oxide-ssh-terminal/src/model.rs: `xterm_color`.
use oxide_ssh.Prelude.{
  ℕ, ◌+◌, ◌-◌, ◌*◌, ◌/◌, ◌%◌, List, [], ◌∷◌, Option, none, some, ltb, if◌then◌else◌, get_elem?,
}
use oxide_ssh.Terminal.Types.{RgbColor, rgb}

abbrev ansi : List RgbColor
ansi =
    rgb 0x00 0x00 0x00
    ∷ rgb 0xcd 0x00 0x00
    ∷ rgb 0x00 0xcd 0x00
    ∷ rgb 0xcd 0xcd 0x00
    ∷ rgb 0x00 0x00 0xee
    ∷ rgb 0xcd 0x00 0xcd
    ∷ rgb 0x00 0xcd 0xcd
    ∷ rgb 0xe5 0xe5 0xe5
    ∷ rgb 0x7f 0x7f 0x7f
    ∷ rgb 0xff 0x00 0x00
    ∷ rgb 0x00 0xff 0x00
    ∷ rgb 0xff 0xff 0x00
    ∷ rgb 0x5c 0x5c 0xff
    ∷ rgb 0xff 0x00 0xff
    ∷ rgb 0x00 0xff 0xff
    ∷ rgb 0xff 0xff 0xff
    ∷ []

abbrev pub cube : List ℕ
cube = 0 ∷ 95 ∷ 135 ∷ 175 ∷ 215 ∷ 255 ∷ []

-- `CUBE[r]`, `CUBE[g]`, `CUBE[b]`; `none` is the panic of an index that is out of bounds.
unfoldable pub cube_color : Option ℕ → Option ℕ → Option ℕ → Option RgbColor
cube_color (some r) (some g) (some b) = some (rgb r g b)
cube_color _ _ _ = none

-- The arm for 16..=231.
unfoldable pub cube_at : ℕ → Option RgbColor
unfolding cube_color
cube_at offset =
    cube_color (get_elem? cube (offset / 36)) (get_elem? cube ((offset / 6) % 6))
      (get_elem? cube (offset % 6))

-- The arm for 232..=255. The cast `as u8` keeps the low eight bits.
unfoldable pub gray_at : ℕ → Option RgbColor
gray_at step =
    let value = 8 + (step * 10) % 256 in
    if ltb value 256 then some (rgb value value value) else none

-- `none` is a panic: an index out of bounds, an addition that overflows its byte, or the
-- `unreachable!` of the last arm.
unfoldable pub xterm_color : ℕ → Option RgbColor
unfolding cube_at gray_at
xterm_color index =
    if ltb index 16
    then get_elem? ansi index
    else if ltb index 232
    then cube_at (index - 16)
    else if ltb index 256
    then gray_at (index - 232)
    else none
