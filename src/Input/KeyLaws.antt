-- ===== src/Input/KeyLaws.antt =====
-- crates/oxide-ssh-terminal/src/input.rs: what `encode` promises of the keys.
use oxide_ssh.Prelude.{
  ℕ, ◌%◌, ◌≡◌, refl, ◌⊎◌, Bool, true, false, ◌&&◌, ◌||◌, List, [], ◌∷◌, Option, none, some, leb,
  ◌==◌, if◌then◌else◌, arith, subst,
}
use oxide_ssh.Input.Keys.{
  Bytes, TermMode, Key, text, enter, backspace, tab, escape, arrow_up, arrow_down, arrow_right,
  arrow_left, home, end, insert, delete, page_up, page_down, function, KeyInput, Modifiers, esc,
  with_alt, control_code, control_byte, csi, ss3, tilde, tilde_pair, function_sequence,
  key_sequence, encode_key, encode,
}

-- The columns of the ASCII table that hold letters, without `@`, the grave accent and what follows
-- the small letters.
abbrev pub has_control : ℕ → Bool
has_control c = (leb 0x41 c && leb c 0x5f) || (leb 0x61 c && leb c 0x7a)

control_code-mod : (c : ℕ) → control_code c ≡ (if has_control c then some (c % 32) else none)
unfolding control_code
control_code-mod c = ground arith

-- The byte that a control text stands for, read off the ASCII table.
abbrev pub low_bits : Bytes → Option ℕ
low_bits [] = none
low_bits (c ∷ []) = if has_control c then some (c % 32) else none
low_bits (c ∷ d ∷ cs) = none

pub control_byte-low_bits : (s : Bytes) → control_byte s ≡ low_bits s
unfolding control_byte
control_byte-low_bits [] = refl
control_byte-low_bits (c ∷ []) = control_code-mod c
control_byte-low_bits (c ∷ d ∷ cs) = refl

abbrev pub with_prefix : Bool → Option ℕ → Bytes
with_prefix alt none = []
with_prefix alt (some b) = if alt then esc ∷ b ∷ [] else b ∷ []

-- With Ctrl down, a text of one byte that is a letter of either case or one of [ \ ] ^ _ sends
-- that byte's low five bits, behind ESC if Alt is down too; any other text sends nothing.
pub encode-control :
    (s : Bytes) (m : Modifiers) (mode : TermMode)
    → m.control ≡ true
    → encode (record { key = text s; modifiers = m }) mode ≡ with_prefix m.alt (low_bits s)
unfolding encode encode_key
encode-control s m mode h = ground (arith, control_byte-low_bits s)

abbrev pub is_text : Key → Bool
is_text (text s) = true
is_text _ = false

-- Alt sends ESC and then what the key sends without it, unless the key sends nothing by having no
-- sequence; then Alt does not make it send anything.
pub encode-alt :
    (i : KeyInput) (mode : TermMode)
    → i.modifiers.alt ≡ false
    → (encode (with_alt i) mode ≡ esc ∷ encode i mode)
      ⊎ ((encode (with_alt i) mode ≡ []) × (encode i mode ≡ []))
unfolding encode encode_key with_alt
encode-alt i mode h = go i.key i.modifiers h
  where
    go :
        (k : Key) (m : Modifiers)
        → m.alt ≡ false
        → (encode (with_alt (record { key = k; modifiers = m })) mode
            ≡ esc ∷ encode (record { key = k; modifiers = m }) mode)
          ⊎ ((encode (with_alt (record { key = k; modifiers = m })) mode ≡ [])
              × (encode (record { key = k; modifiers = m }) mode ≡ []))
    go (text s) m h = ground arith
    go _ m h = ground arith

-- The sequences that a terminal knows, with the key that each stands for. Ctrl-I and Ctrl-M are
-- the texts that share a byte with tab and enter.
bytes_eq : Bytes → Bytes → Bool
bytes_eq [] [] = true
bytes_eq (a ∷ s) (b ∷ t) = a == b && bytes_eq s t
bytes_eq _ _ = false

abbrev key_table : List (Bytes × Key)
key_table =
    (0x0d ∷ [], enter)
    ∷ (0x7f ∷ [], backspace)
    ∷ (0x09 ∷ [], tab)
    ∷ (csi b'Z', tab)
    ∷ (esc ∷ [], escape)
    ∷ (csi b'A', arrow_up)
    ∷ (ss3 b'A', arrow_up)
    ∷ (csi b'B', arrow_down)
    ∷ (ss3 b'B', arrow_down)
    ∷ (csi b'C', arrow_right)
    ∷ (ss3 b'C', arrow_right)
    ∷ (csi b'D', arrow_left)
    ∷ (ss3 b'D', arrow_left)
    ∷ (csi b'H', home)
    ∷ (ss3 b'H', home)
    ∷ (csi b'F', end)
    ∷ (ss3 b'F', end)
    ∷ (tilde b'2', insert)
    ∷ (tilde b'3', delete)
    ∷ (tilde b'5', page_up)
    ∷ (tilde b'6', page_down)
    ∷ (ss3 b'P', function 1)
    ∷ (ss3 b'Q', function 2)
    ∷ (ss3 b'R', function 3)
    ∷ (ss3 b'S', function 4)
    ∷ (tilde_pair b'1' b'5', function 5)
    ∷ (tilde_pair b'1' b'7', function 6)
    ∷ (tilde_pair b'1' b'8', function 7)
    ∷ (tilde_pair b'1' b'9', function 8)
    ∷ (tilde_pair b'2' b'0', function 9)
    ∷ (tilde_pair b'2' b'1', function 10)
    ∷ (tilde_pair b'2' b'3', function 11)
    ∷ (tilde_pair b'2' b'4', function 12)
    ∷ []

find_key : List (Bytes × Key) → Bytes → Option Key
find_key [] s = none
find_key ((t, k) ∷ rest) s = if bytes_eq t s then some k else find_key rest s

pub decode_key : Bytes → Option Key
unfolding find_key bytes_eq
decode_key = find_key key_table

abbrev NamedBy : Option Bytes → Key → Type 0
NamedBy none k = Unit
NamedBy (some s) k = decode_key s ≡ some k

named-function : (n : ℕ) → NamedBy (function_sequence n) (function n)
unfolding function_sequence decode_key
named-function n = ground arith

named-key : (k : Key) (shift : Bool) (mode : TermMode) → NamedBy (key_sequence k shift mode) k
unfolding key_sequence decode_key
named-key (text t) shift mode = tt
named-key (function n) shift mode = named-function n
named-key _ shift mode = ground arith

-- What a key other than text sends names that key, in either cursor mode and with or without
-- Shift: no two keys share a sequence.
pub decode-key_sequence :
    (k : Key) (shift : Bool) (mode : TermMode) {s : Bytes}
    → key_sequence k shift mode ≡ some s
    → decode_key s ≡ some k
decode-key_sequence k shift mode h = subst (λ o. NamedBy o k) h (named-key k shift mode)
