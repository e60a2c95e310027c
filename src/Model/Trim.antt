-- ===== src/Model/Trim.antt =====
-- `str::trim` as crates/oxide-ssh-core/src/model.rs and the desktop use it: what is trimmed stays.
use oxide_ssh.Prelude.{ℕ, false, ◌&&◌, [], ◌∷◌, all, Bool-cases, ◌≡◌, refl, ap, ◌∙◌, inl, inr}
use oxide_ssh.Model.Types.{Text}
use oxide_ssh.Model.Text.{is_whitespace, trim_start, trim_end, trim}

all-trim_end : (s : Text) → all is_whitespace (trim_end s) ≡ all is_whitespace s
all-trim_end [] = refl
all-trim_end (c ∷ cs) = elim (Bool-cases (all is_whitespace (c ∷ cs))) [
  | inl blank ↦ rw blank refl
  | inr some_left ↦ rw some_left (ap (λ b. is_whitespace c && b) (all-trim_end cs) ∙ some_left)
]

trim_end-trim_end : (s : Text) → trim_end (trim_end s) ≡ trim_end s
trim_end-trim_end [] = refl
trim_end-trim_end (c ∷ cs) = elim (Bool-cases (all is_whitespace (c ∷ cs))) [
  | inl blank ↦ rw blank refl
  | inr some_left ↦
      let still : all is_whitespace (c ∷ trim_end cs) ≡ false =
        ap (λ b. is_whitespace c && b) (all-trim_end cs) ∙ some_left in
      rw (some_left, still, trim_end-trim_end cs) refl
]

-- A text that starts with a character that is no white space keeps it at its end as well.
trim_start-trim_end :
    (c : ℕ) (cs : Text)
    → is_whitespace c ≡ false
    → trim_start (trim_end (c ∷ cs)) ≡ trim_end (c ∷ cs)
trim_start-trim_end c cs h =
    let left : all is_whitespace (c ∷ cs) ≡ false = rw h refl in rw (left, h) refl

trim_start_again : (s : Text) → trim_start (trim_end (trim_start s)) ≡ trim_end (trim_start s)
trim_start_again [] = refl
trim_start_again (c ∷ cs) = elim (Bool-cases (is_whitespace c)) [
  | inl blank ↦ rw blank (trim_start_again cs)
  | inr other ↦ rw other (trim_start-trim_end c cs other)
]

pub trim-trim : (s : Text) → trim (trim s) ≡ trim s
trim-trim s = ap trim_end (trim_start_again s) ∙ trim_end-trim_end (trim_start s)
