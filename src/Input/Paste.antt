-- ===== src/Input/Paste.antt =====
-- crates/oxide-ssh-terminal/src/input.rs: `InputEncoder::paste`, its loop over an index included.
use oxide_ssh.Prelude.{
  ℕ, zero, suc, ◌+◌, ◌*◌, Bool, ◌&&◌, ◌||◌, [], ◌∷◌, ◌++◌, Option, none, some, Result, ok, err, ltb,
  ◌==◌, if◌then◌else◌, length, get_or, get_elem?, is_some_and,
}
use oxide_ssh.Input.Keys.{Bytes, TermMode, esc}

abbrev pub max_paste_bytes : ℕ
max_paste_bytes = 1024 * 1024

abbrev pub cr : ℕ
cr = 0x0d

abbrev pub lf : ℕ
lf = 0x0a

pub data PasteError : Type 0 where
  too_large : PasteError

-- The byte that a line break becomes.
abbrev pub line_break : Bool → ℕ
line_break bracketed = if bracketed then lf else cr

-- What the `match` on a byte pushes.
unfoldable pub emitted : Bool → ℕ → Bytes
emitted bracketed c =
    if c == 0 || c == esc
    then []
    else if c == cr
    then line_break bracketed ∷ []
    else if c == lf
    then line_break bracketed ∷ []
    else c ∷ []

-- The index after the body: a line feed behind a carriage return is passed over.
unfoldable pub next_index : Bytes → ℕ → ℕ
next_index bytes index =
    if get_or bytes index 0 == cr && is_some_and (get_elem? bytes (index + 1)) (λ c. c == lf)
    then index + 2
    else index + 1

-- The `while` loop, on fuel; `none` means that the fuel ran out. The read at `index` is in range,
-- since the test has passed.
unfoldable pub paste_loop : ℕ → Bool → Bytes → ℕ → Bytes → Option Bytes
unfolding emitted next_index
paste_loop zero bracketed bytes index output = none
paste_loop (suc fuel) bracketed bytes index output =
    let rest =
      paste_loop fuel bracketed bytes (next_index bytes index)
        (output ++ emitted bracketed (get_or bytes index 0)) in
    if ltb index (length bytes) then rest else some output

-- ESC [ 2 0 0 ~ and ESC [ 2 0 1 ~.
abbrev pub paste_start : Bytes
paste_start = esc ∷ 0x5b ∷ b'2' ∷ b'0' ∷ b'0' ∷ 0x7e ∷ []

abbrev pub paste_end : Bytes
paste_end = esc ∷ 0x5b ∷ b'2' ∷ b'0' ∷ b'1' ∷ 0x7e ∷ []

-- The last statements: the end marker, if the terminal asked for brackets.
abbrev finish : Bool → Option Bytes → Option (Result PasteError Bytes)
finish bracketed none = none
finish bracketed (some output) = some (ok (output ++ (if bracketed then paste_end else [])))

-- The outer `Option` is `none` if the loop's fuel ran out.
unfoldable pub paste : Bytes → TermMode → Option (Result PasteError Bytes)
paste text mode =
    if ltb max_paste_bytes (length text)
    then some (err too_large)
    else finish mode.bracketed_paste (
        paste_loop (suc (length text)) mode.bracketed_paste text 0
          (if mode.bracketed_paste then paste_start else []))
