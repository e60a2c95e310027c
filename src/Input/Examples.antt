-- ===== src/Input/Examples.antt =====
-- crates/oxide-ssh-terminal/src/input.rs: the encoder at concrete inputs.
use oxide_ssh.Prelude.{◌≤◌, ◌≡◌, refl, true, false, [], ◌∷◌, ◌++◌, some, ok, length, All}
use oxide_ssh.Input.Keys.{
  control_code, Bytes, TermMode, text, tab, end, Modifiers, esc, csi, ss3, key_input, with_control,
  with_shift, key_sequence, encode,
}
use oxide_ssh.Input.KeyLaws.{decode_key, decode-key_sequence}
use oxide_ssh.Input.Paste.{paste_loop, emitted, cr, lf, paste, paste_start, paste_end}
use oxide_ssh.Input.PasteLaws.{sanitize, wrap, IsClean, paste-sanitize, paste_confined}

abbrev normal_mode : TermMode
normal_mode = record { app_cursor = false; bracketed_paste = false }

abbrev bracketed_mode : TermMode
bracketed_mode = record { app_cursor = true; bracketed_paste = true }

shift_tab : encode (with_shift (key_input tab)) normal_mode ≡ csi b'Z'
unfolding encode with_shift key_input key_sequence
shift_tab = refl

control_c : encode (with_control (key_input (text (b'c' ∷ [])))) normal_mode ≡ 3 ∷ []
unfolding encode with_control key_input control_code
control_c = refl

abbrev control_alt : Modifiers
control_alt = record { control = true; alt = true; shift = false }

decode-key_sequence_example : decode_key (ss3 b'F') ≡ some end
unfolding key_sequence
decode-key_sequence_example = decode-key_sequence end true bracketed_mode refl

-- "a", carriage return, line feed, ESC, "b".
abbrev clipboard : Bytes
clipboard = b'a' ∷ cr ∷ lf ∷ esc ∷ b'b' ∷ []

paste_runs :
    paste clipboard bracketed_mode ≡ some (ok (paste_start ++ b'a' ∷ lf ∷ b'b' ∷ paste_end))
unfolding paste paste_loop
paste_runs = refl

paste-sanitize_example : paste clipboard normal_mode ≡ some (ok (b'a' ∷ cr ∷ b'b' ∷ []))
unfolding sanitize emitted
paste-sanitize_example = paste-sanitize clipboard normal_mode

paste_confined_example :
    (body : Bytes) × (paste_start ++ b'a' ∷ lf ∷ b'b' ∷ paste_end ≡ wrap true body)
    × All (IsClean true) body
    × (length body ≤ 5)
paste_confined_example = paste_confined clipboard bracketed_mode paste_runs
