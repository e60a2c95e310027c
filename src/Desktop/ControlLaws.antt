-- ===== src/Desktop/ControlLaws.antt =====
-- crates/oxide-ssh-desktop/src/app/mod.rs: moving through the tabs.
use native.Mathlib.Nat.{mod-lt, mod-eq_of_lt, mod_self}
use oxide_ssh.Prelude.{
  ℕ, zero, suc, ◌+◌, ◌-◌, ◌%◌, ◌<◌, ◌≡◌, ◌⊎◌, inl, inr, Bool, true, false, not, arith, ◌∙◌, ap,
}
use oxide_ssh.Desktop.Controls.{next_place}

pub next_place-bound : (b : Bool) (i n : ℕ) → i < n → next_place b i n < n
unfolding next_place
next_place-bound true i n h = ground arith
next_place-bound false i n h = mod-lt (i + 1) (omega arith)

edge : (i n : ℕ) → i < n → (i + 1 < n) ⊎ (i + 1 ≡ n)
edge i n h = ground arith

-- A step and the step back lead to the place where they began.
pub next_place-not : (b : Bool) (i n : ℕ) → i < n → next_place (not b) (next_place b i n) n ≡ i
unfolding next_place
next_place-not true zero n h = let e : n - 1 + 1 ≡ n = omega arith in rw e (mod_self n)
next_place-not true (suc i) n h =
    let less : i + 1 < n = omega (arith, h) in
    let back : next_place true (suc i) n ≡ i = ground arith in
    let e : (i + 1) % n ≡ suc i = mod-eq_of_lt less ∙ omega arith in ap (λ j. (j + 1) % n) back ∙ e
next_place-not false i n h = elim (edge i n h) [
  | inl inside ↦ rw (mod-eq_of_lt inside) (ground arith)
  | inr last ↦ let e : (i + 1) % n ≡ 0 = rw last (mod_self n) in rw e (omega arith)
]
