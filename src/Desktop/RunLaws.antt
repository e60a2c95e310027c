-- ===== src/Desktop/RunLaws.antt =====
-- crates/oxide-ssh-desktop/src/app/terminal.rs: the text of a row and its runs against the cells.
use oxide_ssh.Prelude.{
  ℕ, zero, suc, ◌+◌, ◌≡◌, refl, sym, ap, ◌∙◌, subst, Bool, true, inl, inr, List, [], ◌∷◌, ◌++◌,
  Option, none, some, append-nil, append_assoc, arith, Bool-cases, length, replicate,
}
use oxide_ssh.Input.Keys.{Bytes}
use oxide_ssh.Terminal.Types.{RgbColor}
use oxide_ssh.Terminal.Cells.{CellRenderStyle}
use oxide_ssh.Desktop.Render.{
  RunKey, Look, TextRun, Row, same, same_rgb, same_style, same_colors, same_face, same_width,
  same_run_key, is_key, extend_last, push_text,
}

same-eq : (a b : Bool) → same a b ≡ true → a ≡ b
unfolding same
same-eq a b h = ground arith

same_rgb-eq : (a b : RgbColor) → same_rgb a b ≡ true → a ≡ b
unfolding same_rgb
same_rgb-eq a b h = ground arith

same_colors-eq :
    (a b : CellRenderStyle)
    → same_colors a b ≡ true
    → (a.foreground ≡ b.foreground) × (a.background ≡ b.background)
unfolding same_colors
same_colors-eq a b h =
    ground (arith, same_rgb-eq a.foreground b.foreground, same_rgb-eq a.background b.background)

same_face-eq :
    (a b : CellRenderStyle)
    → same_face a b ≡ true
    → (a.bold ≡ b.bold)
      × (a.italic ≡ b.italic)
      × (a.underline ≡ b.underline)
      × (a.strikeout ≡ b.strikeout)
unfolding same_face same
same_face-eq a b h = ground arith

same_width-eq :
    (a b : CellRenderStyle)
    → same_width a b ≡ true
    → (a.hidden ≡ b.hidden) × (a.wide ≡ b.wide) × (a.wide_spacer ≡ b.wide_spacer)
unfolding same_width same
same_width-eq a b h = ground arith

same_style-parts :
    (a b : CellRenderStyle)
    → same_style a b ≡ true
    → (same_colors a b ≡ true) × (same_face a b ≡ true) × (same_width a b ≡ true)
unfolding same_style
same_style-parts a b h = ground arith

same_style-eq : (a b : CellRenderStyle) → same_style a b ≡ true → a ≡ b
same_style-eq a b h =
    let (colors, face, width) = same_style-parts a b h in
    let (fg, bg) = same_colors-eq a b colors in
    let (bold, italic, underline, strikeout) = same_face-eq a b face in
    let (hidden, wide, spacer) = same_width-eq a b width in cc

same_run_key-eq : (a b : RunKey) → same_run_key a b ≡ true → a ≡ b
unfolding same_run_key
same_run_key-eq a b h = ground (arith, same_style-eq a.style b.style, same-eq a.selected b.selected)

-- What each byte of a row looks like.
abbrev pub spread : List TextRun → List Look
spread [] = []
spread (r ∷ rs) = replicate r.len r.look ++ spread rs

abbrev pub LastLook : Look → List TextRun → Type 0
LastLook l [] = ⊥
LastLook l (r ∷ []) = r.look ≡ l
LastLook l (r ∷ s ∷ rs) = LastLook l (s ∷ rs)

LastLook-cons : (l : Look) (r : TextRun) (rs : List TextRun) → LastLook l rs → LastLook l (r ∷ rs)
LastLook-cons l r [] h = absurd h
LastLook-cons l r (s ∷ rs) h = h

replicate-add {ℓ} :
    {A : Type ℓ} (m n : ℕ) (x : A) → replicate (m + n) x ≡ replicate m x ++ replicate n x
replicate-add zero n x = ground arith
replicate-add (suc m) n x =
    let e : suc m + n ≡ suc (m + n) = omega arith in rw e (ap (◌∷◌ x) (replicate-add m n x))

extend_last-spread :
    (n : ℕ) (l : Look) (rs : List TextRun)
    → LastLook l rs
    → (spread (extend_last n rs) ≡ spread rs ++ replicate n l) × LastLook l (extend_last n rs)
unfolding extend_last
extend_last-spread n l [] h = absurd h
extend_last-spread n l (r ∷ []) h = (rw (← h) (simp (replicate-add r.len n r.look, append-nil)), h)
extend_last-spread n l (r ∷ s ∷ rs) h =
    let (e, k) = extend_last-spread n l (s ∷ rs) h in
    (
      ap (replicate r.len r.look ++◌) e ∙ sym (append_assoc (replicate r.len r.look) _ _),
      LastLook-cons l r (extend_last n (s ∷ rs)) k,
    )

LastLook-append :
    (l : Look) (rs : List TextRun) (r : TextRun) → r.look ≡ l → LastLook l (rs ++ r ∷ [])
LastLook-append l [] r h = h
LastLook-append l (s ∷ []) r h = h
LastLook-append l (s ∷ t ∷ rs) r h = LastLook-append l (t ∷ rs) r h

spread-append : (xs ys : List TextRun) → spread (xs ++ ys) ≡ spread xs ++ spread ys
spread-append [] ys = refl
spread-append (x ∷ xs) ys =
    rw (spread-append xs ys) (sym (append_assoc (replicate x.len x.look) (spread xs) (spread ys)))

is_key-some : (key : RunKey) (o : Option RunKey) → is_key key o ≡ true → o ≡ some key
is_key-some key none h = cc
is_key-some key (some k) h = ap some (same_run_key-eq k key h)

abbrev pub IsKept : (RunKey → Look) → Row → Option RunKey → Type 0
IsKept f row none = row.runs ≡ []
IsKept f row (some k) = LastLook (f k) row.runs

-- A text that is added to a row adds its look, byte by byte.
pub push_text_lem :
    (f : RunKey → Look) (key : RunKey) (bytes : Bytes) (row : Row)
    → IsKept f row row.key
    → (spread (push_text f key bytes row).runs
        ≡ spread row.runs ++ replicate (length bytes) (f key))
      × IsKept f (push_text f key bytes row) (push_text f key bytes row).key
      × ((push_text f key bytes row).text ≡ row.text ++ bytes)
unfolding push_text
push_text_lem f key bytes row h = elim (Bool-cases (is_key key row.key)) [
  | inl more ↦
      let old : row.key ≡ some key = is_key-some key row.key more in
      let last : LastLook (f key) row.runs = subst (λ o. IsKept f row o) old h in
      let (grown, kept) = extend_last-spread (length bytes) (f key) row.runs last in
      rw more (
        grown,
        subst
            (λ o.
              IsKept f
                (record row {
                  text = row.text ++ bytes;
                  runs = extend_last (length bytes) row.runs;
                })
                o)
            (sym old) kept,
        refl,
      )
  | inr other ↦ rw other (
    spread-append row.runs _ ∙ ap (spread row.runs ++◌) (append-nil _),
    LastLook-append (f key) row.runs _ refl,
    refl,
  )
]
