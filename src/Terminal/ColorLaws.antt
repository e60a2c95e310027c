-- ===== src/Terminal/ColorLaws.antt =====
-- `xterm_color`: no index that it is called with panics, and the colours of the cube and the ramp.
use oxide_ssh.Prelude.{
  ℕ, zero, suc, ◌+◌, ◌-◌, ◌*◌, ◌/◌, ◌%◌, ◌<◌, Bool, true, false, ◌&&◌, Option, none, some, ltb,
  ◌==◌, get_elem?, is_some_and, ◌≡◌, refl, ◌∙◌, inl, inr, arith, Bool-cases,
}
use oxide_ssh.Terminal.Types.{RgbColor, rgb}
use oxide_ssh.Terminal.Colors.{xterm_color, cube_at, gray_at, cube, cube_color}

-- The level of a coordinate in the cube: 0, and then from 95 on in steps of 40.
abbrev pub level : ℕ → ℕ
level zero = 0
level (suc n) = 95 + 40 * n

cube-level : (n : ℕ) → n < 6 → get_elem? cube n ≡ some (level n)
cube-level zero h = refl
cube-level (suc zero) h = refl
cube-level (suc (suc zero)) h = refl
cube-level (suc (suc (suc zero))) h = refl
cube-level (suc (suc (suc (suc zero)))) h = refl
cube-level (suc (suc (suc (suc (suc zero))))) h = refl
cube-level (suc (suc (suc (suc (suc (suc n)))))) h = absurd (omega arith)

cube_at-level :
    (r g b : ℕ)
    → r < 6
    → g < 6
    → b < 6
    → cube_at (36 * r + 6 * g + b) ≡ some (rgb (level r) (level g) (level b))
unfolding cube_at cube_color
cube_at-level r g b hr hg hb =
    let er : (36 * r + 6 * g + b) / 36 ≡ r = omega arith in
    let eg : ((36 * r + 6 * g + b) / 6) % 6 ≡ g = omega arith in
    let eb : (36 * r + 6 * g + b) % 6 ≡ b = omega arith in
    rw (er, eg, eb, cube-level r hr, cube-level g hg, cube-level b hb) refl

xterm_color-cube_at : (n : ℕ) → n < 216 → xterm_color (16 + n) ≡ cube_at n
unfolding xterm_color
xterm_color-cube_at n h =
    let a : ltb (16 + n) 16 ≡ false = ground arith in
    let b : ltb (16 + n) 232 ≡ true = ground arith in
    let c : 16 + n - 16 ≡ n = omega arith in rw (a, b, c) refl

-- The indices from 16 on are the cells of a cube of side 6, the red coordinate outermost, with
-- the colour that has the three coordinates' levels.
pub xterm_color-cube :
    (r g b : ℕ)
    → r < 6
    → g < 6
    → b < 6
    → xterm_color (16 + (36 * r + 6 * g + b)) ≡ some (rgb (level r) (level g) (level b))
xterm_color-cube r g b hr hg hb =
    xterm_color-cube_at (36 * r + 6 * g + b) (omega arith) ∙ cube_at-level r g b hr hg hb

-- All the three bytes of a colour.
abbrev pub InBytes : RgbColor → Type 0
InBytes c = (c.red < 256) × (c.green < 256) × (c.blue < 256)

abbrev in_bytes : Option RgbColor → Bool
in_bytes o = is_some_and o (λ c. ltb c.red 256 && ltb c.green 256 && ltb c.blue 256)

abbrev all_below : ℕ → (ℕ → Bool) → Bool
all_below zero p = true
all_below (suc n) p = p n && all_below n p

last_below :
    (n : ℕ) (p : ℕ → Bool) (i : ℕ) → all_below (suc n) p ≡ true → i == n ≡ true → p i ≡ true
last_below n p i h last = let e : i ≡ n = ground arith in rw e (ground arith)

below : (n : ℕ) (p : ℕ → Bool) (i : ℕ) → all_below n p ≡ true → i < n → p i ≡ true
below zero p i h k = absurd (omega arith)
below (suc n) p i h k = elim (Bool-cases (i == n)) [
  | inl last ↦ last_below n p i h last
  | inr other ↦ below n p i (ground arith) (ground arith)
]

checked : all_below 256 (λ i. in_bytes (xterm_color i)) ≡ true
unfolding xterm_color cube_at cube_color gray_at
checked = refl

bytes_of : (o : Option RgbColor) → in_bytes o ≡ true → (c : RgbColor) × (o ≡ some c) × InBytes c
bytes_of none h = cc
bytes_of (some c) h = (c, refl, (ground arith, ground arith, ground arith))

-- An index below 256 has a colour, and each part of it is a byte.
pub xterm_color-InBytes :
    (index : ℕ) → index < 256 → (c : RgbColor) × (xterm_color index ≡ some c) × InBytes c
xterm_color-InBytes index h =
    bytes_of (xterm_color index) (below 256 (λ i. in_bytes (xterm_color i)) index checked h)
