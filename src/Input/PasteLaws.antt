-- ===== src/Input/PasteLaws.antt =====
-- crates/oxide-ssh-terminal/src/input.rs: what `paste` sends, whatever the clipboard holds.
use oxide_ssh.Prelude.{
  ℕ, zero, suc, ◌+◌, ◌-◌, ◌≤◌, ◌<◌, ◌≡◌, refl, inl, inr, ◌≢◌, Bool, false, ◌&&◌, [], ◌∷◌, ◌++◌,
  some, ok, err, ltb, ◌==◌, if◌then◌else◌, arith, Bool-cases, length, get_or, get_elem?, drop, All,
  All-append, head?, append-nil, append_assoc, length-append, ltb→lt,
}
use native.Mathlib.Numerals.{add-one, towards_suc}
use oxide_ssh.Input.Keys.{Bytes, TermMode, esc}
use oxide_ssh.Input.Paste.{
  max_paste_bytes, cr, lf, too_large, emitted, next_index, paste_loop, paste_start, paste_end,
  paste,
}

-- The text as the session should see it: `after_cr` says that the byte before was a carriage
-- return, whose line feed is dropped.
unfoldable pub sanitize : Bool → Bool → Bytes → Bytes
sanitize bracketed after_cr [] = []
sanitize bracketed after_cr (c ∷ cs) =
    (if after_cr && c == lf then [] else emitted bracketed c) ++ sanitize bracketed (c == cr) cs

drop-cons : (xs : Bytes) (i : ℕ) → i < length xs → drop i xs ≡ get_or xs i 0 ∷ drop (suc i) xs
drop-cons [] i h = elim h [ ]
drop-cons (x ∷ xs) zero h = refl
drop-cons (x ∷ xs) (suc i) h = drop-cons xs i (omega arith)

drop-length : (xs : Bytes) (i : ℕ) → length xs ≤ i → drop i xs ≡ []
drop-length [] zero h = refl
drop-length [] (suc i) h = refl
drop-length (x ∷ xs) zero h = elim h [ ]
drop-length (x ∷ xs) (suc i) h = drop-length xs i (omega arith)

get_elem?-drop : (xs : Bytes) (i : ℕ) → get_elem? xs i ≡ head? (drop i xs)
get_elem?-drop [] zero = refl
get_elem?-drop [] (suc i) = refl
get_elem?-drop (x ∷ xs) zero = refl
get_elem?-drop (x ∷ xs) (suc i) = get_elem?-drop xs i

-- A step of the loop over the bytes that are left.
tail_after : ℕ → Bytes → Bytes
tail_after c [] = []
tail_after c (d ∷ ds) = if c == cr && d == lf then ds else d ∷ ds

sanitize-step :
    (b : Bool) (c : ℕ) (cs : Bytes)
    → sanitize b false (c ∷ cs) ≡ emitted b c ++ sanitize b false (tail_after c cs)
unfolding sanitize tail_after
sanitize-step b c [] = refl
sanitize-step b c (d ∷ ds) = ground arith

drop-suc-suc :
    (xs : Bytes) (i : ℕ) {d : ℕ} {ds : Bytes}
    → drop (suc i) xs ≡ d ∷ ds
    → drop (suc (suc i)) xs ≡ ds
drop-suc-suc [] i h = cc
drop-suc-suc (x ∷ []) zero h = cc
drop-suc-suc (x ∷ y ∷ ys) zero h = cc
drop-suc-suc (x ∷ xs) (suc i) h = drop-suc-suc xs i h

drop-add :
    (xs : Bytes) (i : ℕ) {d : ℕ} {ds : Bytes} → drop (i + 1) xs ≡ d ∷ ds → drop (i + 2) xs ≡ ds
drop-add xs i h = simp towards_suc (drop-suc-suc xs i (simp towards_suc at h))

drop-next_index :
    (xs : Bytes) (i : ℕ) → drop (next_index xs i) xs ≡ tail_after (get_or xs i 0) (drop (i + 1) xs)
unfolding next_index tail_after
drop-next_index xs i = by_rest (drop (i + 1) xs) refl
  where
    by_rest :
        (r : Bytes) → drop (i + 1) xs ≡ r → drop (next_index xs i) xs ≡ tail_after (get_or xs i 0) r
    by_rest [] e = ground (arith, get_elem?-drop xs (i + 1))
    by_rest (d ∷ ds) e = ground (arith, get_elem?-drop xs (i + 1), drop-add xs i e)

next_index-lt : (xs : Bytes) (i : ℕ) → i < next_index xs i
unfolding next_index
next_index-lt xs i = ground arith

sanitize-drop :
    (b : Bool) (xs : Bytes) (i : ℕ)
    → i < length xs
    → sanitize b false (drop i xs)
      ≡ emitted b (get_or xs i 0) ++ sanitize b false (drop (next_index xs i) xs)
sanitize-drop b xs i h =
    rw (drop-cons xs i h, drop-next_index xs i, add-one i) (sanitize-step b _ (drop (suc i) xs))

-- Fuel above the number of bytes left is enough.
paste_loop-sanitize :
    (f : ℕ) (b : Bool) (xs : Bytes) (i : ℕ) (out : Bytes)
    → length xs - i < f
    → paste_loop f b xs i out ≡ some (out ++ sanitize b false (drop i xs))
unfolding paste_loop
paste_loop-sanitize zero b xs i out h = elim h [ ]
paste_loop-sanitize (suc f) b xs i out h = elim (Bool-cases (ltb i (length xs))) [
  | inl more ↦
      rw (more, sanitize-drop b xs i (ltb→lt _ _ more), ← append_assoc)
        (paste_loop-sanitize f b xs (next_index xs i) _
          (omega (arith, next_index-lt xs i, ltb→lt _ _ more)))
  | inr done ↦ rw (done, drop-length xs i (ground arith)) (unfold sanitize in rw append-nil)
]

abbrev pub wrap : Bool → Bytes → Bytes
wrap bracketed body = if bracketed then paste_start ++ body ++ paste_end else body

-- A text of at most one mebibyte is sent whole, as `sanitize` gives it and between the brackets if
-- the terminal asked for them; a longer one is refused. The loop always ends.
pub paste-sanitize :
    (text : Bytes) (mode : TermMode)
    → paste text mode
      ≡ some (
          if ltb max_paste_bytes (length text)
          then err too_large
          else ok (wrap mode.bracketed_paste (sanitize mode.bracketed_paste false text)))
unfolding paste
paste-sanitize text mode = ground (
  arith,
  paste_loop-sanitize (suc (length text)) mode.bracketed_paste text 0
      (if mode.bracketed_paste then paste_start else []),
  append-nil (sanitize false false text),
)

-- A byte that may stand in a paste: no NUL, no ESC, and only the line break of the mode.
abbrev pub IsClean : Bool → ℕ → Type 0
IsClean bracketed c = (c ≢ 0) × (c ≢ esc) × (c ≢ (if bracketed then cr else lf))

emitted-IsClean : (b : Bool) (c : ℕ) → All (IsClean b) (emitted b c)
unfolding emitted
emitted-IsClean b c = ground arith

sanitize-IsClean : (b after_cr : Bool) (cs : Bytes) → All (IsClean b) (sanitize b after_cr cs)
unfolding sanitize
sanitize-IsClean b a [] = tt
sanitize-IsClean b a (c ∷ cs) = elim (Bool-cases (a && c == lf)) [
  | inl skipped ↦ rw skipped (sanitize-IsClean b (c == cr) cs)
  | inr kept ↦ rw kept (
      All-append (IsClean b) (emitted b c) _ (emitted-IsClean b c)
        (sanitize-IsClean b (c == cr) cs))
]

length-emitted : (b : Bool) (c : ℕ) → length (emitted b c) ≤ 1
unfolding emitted
length-emitted b c = ground arith

length-sanitize : (b after_cr : Bool) (cs : Bytes) → length (sanitize b after_cr cs) ≤ length cs
unfolding sanitize
length-sanitize b a [] = omega arith
length-sanitize b a (c ∷ cs) = ground (
  arith,
  length-sanitize b (c == cr) cs,
  length-emitted b c,
  length-append (emitted b c) (sanitize b (c == cr) cs),
)

emitted_of_IsClean : (b : Bool) (c : ℕ) → IsClean b c → emitted b c ≡ c ∷ []
unfolding emitted
emitted_of_IsClean b c h = ground arith

sanitize_of_IsClean :
    (b after_cr : Bool) (cs : Bytes)
    → (after_cr && b) ≡ false
    → All (IsClean b) cs
    → sanitize b after_cr cs ≡ cs
unfolding sanitize
sanitize_of_IsClean b a [] h k = refl
sanitize_of_IsClean b a (c ∷ cs) h k =
    ground
      (arith, emitted_of_IsClean b c k.0, sanitize_of_IsClean b (c == cr) cs (ground arith) k.1)

-- Whatever was pasted, what is sent is a body between the markers (or bare), and the body is no
-- longer than the text and holds no NUL, no ESC and no line break but the mode's: a paste cannot
-- close its own bracket.
pub paste_confined :
    (text : Bytes) (mode : TermMode) {out : Bytes}
    → paste text mode ≡ some (ok out)
    → (body : Bytes) × (out ≡ wrap mode.bracketed_paste body)
      × All (IsClean mode.bracketed_paste) body
      × (length body ≤ length text)
paste_confined text mode h = (
  sanitize mode.bracketed_paste false text,
  ground (arith, paste-sanitize text mode),
  sanitize-IsClean mode.bracketed_paste false text,
  length-sanitize mode.bracketed_paste false text,
)

-- A text within the limit that is clean already is sent as it is.
pub paste_of_IsClean :
    (text : Bytes) (mode : TermMode)
    → length text ≤ max_paste_bytes
    → All (IsClean mode.bracketed_paste) text
    → paste text mode ≡ some (ok (wrap mode.bracketed_paste text))
paste_of_IsClean text mode h k =
    ground
      (arith, paste-sanitize text mode, sanitize_of_IsClean mode.bracketed_paste false text refl k)
