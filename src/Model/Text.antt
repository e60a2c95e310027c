-- ===== src/Model/Text.antt =====
-- The operations of Rust's strings that the sources use, on a text as the list of its scalar
-- values.
use oxide_ssh.Prelude.{
  ℕ, ◌+◌, Bool, true, false, ◌&&◌, ◌||◌, [], ◌∷◌, Option, none, some, ltb, leb, ◌==◌, if◌then◌else◌,
  all, ◌≡◌, refl, arith,
}
use oxide_ssh.Model.Types.{Text}

-- `char::is_whitespace`: the code points with the Unicode property White_Space.
abbrev pub is_whitespace : ℕ → Bool
is_whitespace c =
    (leb 0x09 c && leb c 0x0d)
    || c == 0x20
    || c == 0x85
    || c == 0xa0
    || c == 0x1680
    || (leb 0x2000 c && leb c 0x200a)
    || c == 0x2028
    || c == 0x2029
    || c == 0x202f
    || c == 0x205f
    || c == 0x3000

-- `u8::is_ascii_whitespace`, which leaves out the vertical tab.
abbrev pub is_ascii_whitespace : ℕ → Bool
is_ascii_whitespace c = c == 0x20 || c == 0x09 || c == 0x0a || c == 0x0c || c == 0x0d

abbrev pub trim_start : Text → Text
trim_start [] = []
trim_start (c ∷ cs) = if is_whitespace c then trim_start cs else c ∷ cs

abbrev pub trim_end : Text → Text
trim_end [] = []
trim_end (c ∷ cs) = if all is_whitespace (c ∷ cs) then [] else c ∷ trim_end cs

abbrev pub trim : Text → Text
trim s = trim_end (trim_start s)

-- `s.as_bytes().len()`: the bytes of a scalar value in UTF-8.
abbrev pub byte_width : ℕ → ℕ
byte_width c = if ltb c 0x80 then 1 else if ltb c 0x800 then 2 else if ltb c 0x10000 then 3 else 4

abbrev pub byte_len : Text → ℕ
byte_len [] = 0
byte_len (c ∷ cs) = byte_width c + byte_len cs

abbrev pub is_ascii : Text → Bool
is_ascii s = all (λ c. ltb c 0x80) s

abbrev pub lower : ℕ → ℕ
lower c = if leb b'A' c && leb c b'Z' then c + 32 else c

abbrev pub to_ascii_lowercase : Text → Text
to_ascii_lowercase [] = []
to_ascii_lowercase (c ∷ cs) = lower c ∷ to_ascii_lowercase cs

abbrev pub strip_prefix : ℕ → Text → Option Text
strip_prefix p [] = none
strip_prefix p (c ∷ cs) = if c == p then some cs else none

-- The text with a scalar value put back in front.
abbrev pub onto : ℕ → Option Text → Option Text
onto c none = none
onto c (some s) = some (c ∷ s)

abbrev pub strip_suffix : ℕ → Text → Option Text
strip_suffix p [] = none
strip_suffix p (c ∷ []) = if c == p then some [] else none
strip_suffix p (c ∷ d ∷ cs) = onto c (strip_suffix p (d ∷ cs))

-- `==` on strings.
abbrev pub text_eq : Text → Text → Bool
text_eq [] [] = true
text_eq (c ∷ cs) (d ∷ ds) = c == d && text_eq cs ds
text_eq _ _ = false

pub eq_of_text_eq : (s t : Text) → text_eq s t ≡ true → s ≡ t
eq_of_text_eq [] [] h = refl
eq_of_text_eq (c ∷ cs) (d ∷ ds) h = ground (arith, eq_of_text_eq cs ds)
eq_of_text_eq [] (d ∷ ds) h = ground arith
eq_of_text_eq (c ∷ cs) [] h = ground arith

pub text_eq_refl : (s : Text) → text_eq s s ≡ true
text_eq_refl [] = refl
text_eq_refl (c ∷ cs) = ground (arith, text_eq_refl cs)
