-- ===== src/Input/Keys.antt =====
-- crates/oxide-ssh-terminal/src/input.rs: `Key`, `KeyInput` and `InputEncoder::encode`.
-- A byte is a number, a text its UTF-8 bytes. Of alacritty's `TermMode` the two flags are kept
-- that the encoder tests.
use oxide_ssh.Prelude.{
  ℕ, ◌+◌, ◌-◌, Bool, true, false, ◌&&◌, List, [], ◌∷◌, ◌++◌, Option, none, some, leb, ◌==◌,
  if◌then◌else◌,
}

abbrev pub Bytes : Type 0
Bytes = List ℕ

pub record TermMode : Type 0 where
  pub app_cursor : Bool
  pub bracketed_paste : Bool

pub data Key : Type 0 where
  text : Bytes → Key
  enter backspace tab escape : Key
  arrow_up arrow_down arrow_right arrow_left : Key
  home end insert delete page_up page_down : Key
  function : ℕ → Key

pub record Modifiers : Type 0 where
  pub control : Bool
  pub alt : Bool
  pub shift : Bool

pub record KeyInput : Type 0 where
  pub key : Key
  pub modifiers : Modifiers

unfoldable pub key_input : Key → KeyInput
key_input k = record { key = k; modifiers = record { control = false; alt = false; shift = false } }

unfoldable pub with_control : KeyInput → KeyInput
with_control i = let m = i.modifiers in record i { modifiers = record m { control = true } }

unfoldable pub with_alt : KeyInput → KeyInput
with_alt i = let m = i.modifiers in record i { modifiers = record m { alt = true } }

unfoldable pub with_shift : KeyInput → KeyInput
with_shift i = let m = i.modifiers in record i { modifiers = record m { shift = true } }

abbrev pub esc : ℕ
esc = 0x1b

-- The arms of the `match` on the only byte.
unfoldable pub control_code : ℕ → Option ℕ
control_code c =
    if leb b'a' c && leb c b'z'
    then some (c - b'a' + 1)
    else if leb b'A' c && leb c b'Z'
    then some (c - b'A' + 1)
    else if c == 0x5b
    then some 0x1b
    else if c == 0x5c
    then some 0x1c
    else if c == 0x5d
    then some 0x1d
    else if c == 0x5e
    then some 0x1e
    else if c == 0x5f
    then some 0x1f
    else none

unfoldable pub control_byte : Bytes → Option ℕ
control_byte [] = none
control_byte (c ∷ []) = control_code c
control_byte (c ∷ d ∷ cs) = none

-- ESC [ c, ESC O c, and ESC [ a b ~.
abbrev pub csi : ℕ → Bytes
csi c = esc ∷ 0x5b ∷ c ∷ []

abbrev pub ss3 : ℕ → Bytes
ss3 c = esc ∷ 0x4f ∷ c ∷ []

abbrev pub tilde : ℕ → Bytes
tilde a = esc ∷ 0x5b ∷ a ∷ 0x7e ∷ []

abbrev pub tilde_pair : ℕ → ℕ → Bytes
tilde_pair a b = esc ∷ 0x5b ∷ a ∷ b ∷ 0x7e ∷ []

-- The arms for `Key::Function`.
unfoldable pub function_sequence : ℕ → Option Bytes
function_sequence n =
    if n == 1
    then some (ss3 b'P')
    else if n == 2
    then some (ss3 b'Q')
    else if n == 3
    then some (ss3 b'R')
    else if n == 4
    then some (ss3 b'S')
    else if n == 5
    then some (tilde_pair b'1' b'5')
    else if n == 6
    then some (tilde_pair b'1' b'7')
    else if n == 7
    then some (tilde_pair b'1' b'8')
    else if n == 8
    then some (tilde_pair b'1' b'9')
    else if n == 9
    then some (tilde_pair b'2' b'0')
    else if n == 10
    then some (tilde_pair b'2' b'1')
    else if n == 11
    then some (tilde_pair b'2' b'3')
    else if n == 12
    then some (tilde_pair b'2' b'4')
    else none

-- The arms guarded by `application_cursor`.
abbrev cursor_sequence : Bool → ℕ → Bytes
cursor_sequence true c = ss3 c
cursor_sequence false c = csi c

unfoldable pub key_sequence : Key → Bool → TermMode → Option Bytes
key_sequence (text s) shift mode = none
key_sequence enter shift mode = some (0x0d ∷ [])
key_sequence backspace shift mode = some (0x7f ∷ [])
key_sequence tab shift mode = if shift then some (csi b'Z') else some (0x09 ∷ [])
key_sequence escape shift mode = some (esc ∷ [])
key_sequence arrow_up shift mode = some (cursor_sequence mode.app_cursor b'A')
key_sequence arrow_down shift mode = some (cursor_sequence mode.app_cursor b'B')
key_sequence arrow_right shift mode = some (cursor_sequence mode.app_cursor b'C')
key_sequence arrow_left shift mode = some (cursor_sequence mode.app_cursor b'D')
key_sequence home shift mode = some (cursor_sequence mode.app_cursor b'H')
key_sequence end shift mode = some (cursor_sequence mode.app_cursor b'F')
key_sequence insert shift mode = some (tilde b'2')
key_sequence delete shift mode = some (tilde b'3')
key_sequence page_up shift mode = some (tilde b'5')
key_sequence page_down shift mode = some (tilde b'6')
key_sequence (function n) shift mode = function_sequence n

-- The first statement of `encode`: the bytes that stand before the key's own.
abbrev pub alt_prefix : Bool → Bytes
alt_prefix true = esc ∷ []
alt_prefix false = []

-- `Some(sequence)` is appended to what is there, `None` clears it.
abbrev pub extend_or_clear : Bytes → Option Bytes → Bytes
extend_or_clear encoded none = []
extend_or_clear encoded (some sequence) = encoded ++ sequence

abbrev pub push_or_clear : Bytes → Option ℕ → Bytes
push_or_clear encoded none = []
push_or_clear encoded (some byte) = encoded ++ byte ∷ []

-- The `match` on the key.
unfoldable pub encode_key : Key → Modifiers → TermMode → Bytes → Bytes
unfolding control_byte
encode_key (text s) m mode encoded =
    if m.control then push_or_clear encoded (control_byte s) else encoded ++ s
encode_key key m mode encoded = extend_or_clear encoded (key_sequence key m.shift mode)

unfoldable pub encode : KeyInput → TermMode → Bytes
unfolding encode_key
encode input mode = encode_key input.key input.modifiers mode (alt_prefix input.modifiers.alt)
