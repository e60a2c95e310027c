-- ===== src/Desktop/KeyboardLaws.antt =====
-- crates/oxide-ssh-desktop/src/app/terminal.rs: composed text, and the keys that reach a terminal.
use oxide_ssh.Prelude.{
  ℕ, ◌%◌, leb, Bool, ◌≡◌, refl, ap, ◌∙◌, true, false, ◌||◌, List, [], ◌∷◌, Option, none, some, ◌==◌,
  if◌then◌else◌, arith, inl, inr, Bool-cases, Option-cases, Result, ok, err, All,
}
use oxide_ssh.Session.Handle.{Channel}
use oxide_ssh.Terminal.Types.{Emulator}
use oxide_ssh.Model.Types.{Text}
use oxide_ssh.Input.Keys.{
  Bytes, Key, KeyInput, TermMode, esc, encode, encode_key, key_input, with_control, with_alt,
  with_shift,
}
use oxide_ssh.Input.KeyLaws.{has_control, control_byte-low_bits}
use oxide_ssh.Terminal.Model.{mode}
use oxide_ssh.Tabs.Modals.{TabId}
use oxide_ssh.Tabs.Tab.{Tab, TabLocalError, send_text, send_key, send_bytes}
use oxide_ssh.Tabs.Collection.{set_active, tab}
use oxide_ssh.Desktop.View.{AppView}
use oxide_ssh.Desktop.Controls.{send_terminal_input, key_to, key_sent}
use oxide_ssh.Desktop.Keyboard.{
  Platform, Keystroke, pressed_key, input_of, is_left_to_platform, other_key, or_other, find_key,
  named_keys, parse_u8, handle_key_down, unmark_text, replace_and_mark_text_in_range,
  replace_text_in_range, text_to, or_active,
}

-- What can come between the start of a composition and its commit.
pub data Between : Type 0 where
  composed : Between
  tab_chosen : TabId → Between

module _ {T Q : Type 0} where
  abbrev pub after : AppView T Q → Between → AppView T Q
  unfolding replace_and_mark_text_in_range set_active
  after v composed = replace_and_mark_text_in_range v
  after v (tab_chosen id) = record v { tabs = (set_active v.tabs id).0 }

  abbrev pub after_all : AppView T Q → List Between → AppView T Q
  after_all v [] = v
  after_all v (b ∷ bs) = after_all (after v b) bs

  abbrev IsComposedIn : TabId → AppView T Q → Type 0
  IsComposedIn id v = (v.composing ≡ true) × (v.compose_tab ≡ some id)

  after-IsComposedIn :
      (id : TabId) (v : AppView T Q) (b : Between) → IsComposedIn id v → IsComposedIn id (after v b)
  unfolding after replace_and_mark_text_in_range
  after-IsComposedIn id v composed (c, e) = (refl, rw c e)
  after-IsComposedIn id v (tab_chosen other) h = h

  after_all-IsComposedIn :
      (id : TabId) (v : AppView T Q) (bs : List Between)
      → IsComposedIn id v
      → IsComposedIn id (after_all v bs)
  after_all-IsComposedIn id v [] h = h
  after_all-IsComposedIn id v (b ∷ bs) h =
      after_all-IsComposedIn id (after v b) bs (after-IsComposedIn id v b h)

  module _ ⦃channel : Channel Q⦄ ⦃em : Emulator T⦄ where
    abbrev HasEnded : AppView T Q → Type 0
    HasEnded v = (v.composing ≡ false) × (v.compose_tab ≡ none)

    key_sent-HasEnded :
        (v : AppView T Q) (id : TabId) (r : Tab T Q × Result TabLocalError (Unit {0}))
        → HasEnded v
        → HasEnded (key_sent v id r)
    key_sent-HasEnded v id (t, ok u) h = h
    key_sent-HasEnded v id (t, err e) h = h

    text_to-HasEnded :
        (v : AppView T Q) (text : Bytes) (o : Option TabId)
        → HasEnded v
        → HasEnded (text_to v text o)
    text_to-HasEnded v text none h = h
    text_to-HasEnded v text (some id) h = elim (Option-cases (tab v.tabs id)) [
      | inl e ↦ rw (e, text_to) h
      | inr (t, e) ↦ rw (e, text_to) (key_sent-HasEnded v id (send_text t text) h)
    ]

    -- The text of a composition goes to the tab that was active when it began, whatever tabs are
    -- chosen and whatever else is composed before it is committed; the composition has then ended.
    pub composed_text :
        (v : AppView T Q) (id : TabId) (bs : List Between) (text : Bytes)
        → v.composing ≡ false
        → v.tabs.active ≡ some id
        → let w = after_all (replace_and_mark_text_in_range v) bs in
          let u = replace_text_in_range w text in
          (u ≡ text_to (unmark_text w) text (some id))
          × (u.composing ≡ false)
          × (u.compose_tab ≡ none)
    unfolding replace_text_in_range replace_and_mark_text_in_range unmark_text
    composed_text v id bs text idle active =
        let w = after_all (replace_and_mark_text_in_range v) bs in
        let first : IsComposedIn id (replace_and_mark_text_in_range v) = (refl, rw idle active) in
        let held = after_all-IsComposedIn id (replace_and_mark_text_in_range v) bs first in
        let ended =
          text_to-HasEnded (unmark_text w) text (or_active w.compose_tab w.tabs.active)
            (refl, refl) in
        (
          ap (λ o. text_to (unmark_text w) text (or_active o w.tabs.active)) held.1,
          ended.0,
          ended.1,
        )

abbrev IsLong : Text → Type 0
IsLong (a ∷ b ∷ cs) = Unit
IsLong _ = ⊥

find_key-letter :
    (c : ℕ) (names : List (Text × Key))
    → All (λ n. IsLong n.0) names
    → find_key (c ∷ []) names ≡ none
find_key-letter c [] h = refl
find_key-letter c (([], k) ∷ names) h = absurd h.0
find_key-letter c ((a ∷ [], k) ∷ names) h = absurd h.0
find_key-letter c ((a ∷ b ∷ cs, k) ∷ names) h = ground (arith, find_key-letter c names h.1)

pressed_key-letter :
    (k : Keystroke) (c : ℕ) (t : Text)
    → k.key ≡ c ∷ []
    → k.key_char ≡ some t
    → pressed_key k ≡ (if c == b'f' then none else some (Key.text t))
unfolding pressed_key other_key parse_u8
pressed_key-letter k c t e f =
    let unnamed : find_key (c ∷ []) named_keys ≡ none =
      find_key-letter c named_keys (omega arith) in
    rw (e, f) (ap (λ o. or_other o (other_key (c ∷ []) (some t))) unnamed)

left_to_platform-modified :
    (platform : Platform) (k : Keystroke)
    → k.platform ≡ false
    → (k.control || k.alt) ≡ true
    → is_left_to_platform platform k ≡ false
unfolding is_left_to_platform
left_to_platform-modified Platform.linux k p m = refl
left_to_platform-modified Platform.macos k p m = ground arith
left_to_platform-modified Platform.windows k p m = ground arith

-- The bytes of a small letter with control, with alt, or with both.
abbrev pub chord : Bool → Bool → ℕ → Bytes
chord true true c = esc ∷ c % 32 ∷ []
chord true false c = c % 32 ∷ []
chord false true c = esc ∷ c ∷ []
chord false false c = c ∷ []

has_control-letter : (c : ℕ) → leb b'a' c ≡ true → leb c b'z' ≡ true → has_control c ≡ true
has_control-letter c h k = ground arith

-- What is sent does not depend on shift, which `input_of` passes on.
encode-letter :
    (control alt shift : Bool) (k : Keystroke) (c : ℕ) (mode : TermMode)
    → k.control ≡ control
    → k.alt ≡ alt
    → k.shift ≡ shift
    → has_control c ≡ true
    → encode (input_of k (Key.text (c ∷ []))) mode ≡ chord control alt c
unfolding encode encode_key input_of key_input with_control with_alt with_shift
encode-letter true true true k c mode e f g h = rw (e, f, g, control_byte-low_bits (c ∷ []), h) refl
encode-letter true true false k c mode e f g h =
    rw (e, f, g, control_byte-low_bits (c ∷ []), h) refl
encode-letter true false true k c mode e f g h =
    rw (e, f, g, control_byte-low_bits (c ∷ []), h) refl
encode-letter true false false k c mode e f g h =
    rw (e, f, g, control_byte-low_bits (c ∷ []), h) refl
encode-letter false true true k c mode e f g h = rw (e, f, g) refl
encode-letter false true false k c mode e f g h = rw (e, f, g) refl
encode-letter false false true k c mode e f g h = rw (e, f, g) refl
encode-letter false false false k c mode e f g h = rw (e, f, g) refl

module _ {T Q : Type 0} ⦃channel : Channel Q⦄ ⦃em : Emulator T⦄ where
  abbrev bytes_sent : Tab T Q → Bytes → Tab T Q × Result TabLocalError (Unit {0})
  bytes_sent t bytes = elim bytes [ [] ↦ (t, ok tt) | b ∷ bs ↦ send_bytes t (b ∷ bs) ]

  chord_sent :
      (t : Tab T Q) (control alt : Bool) (c : ℕ)
      → bytes_sent t (chord control alt c) ≡ send_bytes t (chord control alt c)
  chord_sent t true true c = refl
  chord_sent t true false c = refl
  chord_sent t false true c = refl
  chord_sent t false false c = refl

  send_key-letter :
      (t : Tab T Q) (k : Keystroke) (c : ℕ)
      → has_control c ≡ true
      → send_key t (input_of k (Key.text (c ∷ []))) ≡ send_bytes t (chord k.control k.alt c)
  unfolding send_key
  send_key-letter t k c h =
      ap (bytes_sent t)
        (encode-letter k.control k.alt k.shift k c (mode t.terminal) refl refl refl h)
      ∙ chord_sent t k.control k.alt c

  sent_to_active :
      (v : AppView T Q) (input : KeyInput) (id : TabId) (t : Tab T Q)
      → v.tabs.active ≡ some id
      → tab v.tabs id ≡ some t
      → send_terminal_input v input ≡ key_sent v id (send_key t input)
  unfolding send_terminal_input
  sent_to_active v input id t active there = ap (key_to v input) active ∙ (rw (there, key_to) refl)

  -- A small letter that types itself, with control or alt and without the command key, on every system,
  -- with a tab active: control sends the letter's low five bits, alt alone the letter, and alt puts ESC in front
  -- of either, whatever shift does. The letter f is the exception: nothing is sent.
  pub handle_key_down-letter :
      (platform : Platform) (v : AppView T Q) (k : Keystroke) (c : ℕ) (id : TabId) (t : Tab T Q)
      → k.key ≡ c ∷ []
      → k.key_char ≡ some (c ∷ [])
      → leb b'a' c ≡ true
      → leb c b'z' ≡ true
      → k.platform ≡ false
      → (k.control || k.alt) ≡ true
      → v.tabs.active ≡ some id
      → tab v.tabs id ≡ some t
      → handle_key_down platform v k
        ≡ (if c == b'f' then v else key_sent v id (send_bytes t (chord k.control k.alt c)))
  unfolding handle_key_down
  handle_key_down-letter platform v k c id t e f low high p m active there =
      elim (Bool-cases (c == b'f')) [
        | inl letter_f ↦
            let none_there = pressed_key-letter k c (c ∷ []) e f in
            rw (left_to_platform-modified platform k p m, none_there, letter_f) refl
        | inr other ↦
            let pressed = pressed_key-letter k c (c ∷ []) e f in
            rw (left_to_platform-modified platform k p m, pressed, other)
              (sent_to_active v (input_of k (Key.text (c ∷ []))) id t active there
                ∙ ap (key_sent v id) (send_key-letter t k c (has_control-letter c low high)))
      ]
