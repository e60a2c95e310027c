-- ===== src/Desktop/Sorting.antt =====
-- Rust's comparisons as the desktop chains them (`cmp` on strings and numbers, `then_with`), its stable
-- `sort_by`, and what a sorted list is.
use oxide_ssh.Prelude.{
  ℕ, suc, Bool, true, false, List, [], ◌∷◌, ◌≡◌, refl, sym, ap, ◌∙◌, if◌then◌else◌, Bool-cases, All,
  All-map, inl, inr, arith,
}
use Prim.Native.Nat.{compare, Ordering}
use mathlib.Core.List.{Perm}
use mathlib.Core.List.Perm
use oxide_ssh.Model.Types.{Text}

abbrev pub then_with : Ordering → Ordering → Ordering
then_with Ordering.eq next = next
then_with Ordering.lt next = Ordering.lt
then_with Ordering.gt next = Ordering.gt

abbrev pub flip : Ordering → Ordering
flip Ordering.lt = Ordering.gt
flip Ordering.eq = Ordering.eq
flip Ordering.gt = Ordering.lt

-- The order of the bytes in UTF-8 is that of the scalar values.
abbrev pub text_cmp : Text → Text → Ordering
text_cmp [] [] = Ordering.eq
text_cmp [] (d ∷ ds) = Ordering.lt
text_cmp (c ∷ cs) [] = Ordering.gt
text_cmp (c ∷ cs) (d ∷ ds) = then_with (compare c d) (text_cmp cs ds)

abbrev pub is_le : Ordering → Bool
is_le Ordering.gt = false
is_le _ = true

module _ {A : Type 0} where
  abbrev pub insert_by : (A → A → Ordering) → A → List A → List A
  insert_by cmp x [] = x ∷ []
  insert_by cmp x (y ∷ ys) = if is_le (cmp x y) then x ∷ y ∷ ys else y ∷ insert_by cmp x ys

  -- Equal elements keep their order.
  abbrev pub sort_by : (A → A → Ordering) → List A → List A
  sort_by cmp [] = []
  sort_by cmp (x ∷ xs) = insert_by cmp x (sort_by cmp xs)

  -- What `sort_by` asks of a comparison.
  pub record IsOrder (cmp : A → A → Ordering) : Type 0 where
    pub flips : (a b : A) → cmp b a ≡ flip (cmp a b)
    pub le_trans :
        (a b c : A) → is_le (cmp a b) ≡ true → is_le (cmp b c) ≡ true → is_le (cmp a c) ≡ true

  -- No element stands before a smaller one.
  abbrev pub IsSorted : (A → A → Ordering) → List A → Type 0
  IsSorted cmp [] = Unit
  IsSorted cmp (x ∷ xs) = All (λ y. is_le (cmp x y) ≡ true) xs × IsSorted cmp xs

  insert_by-perm :
      (cmp : A → A → Ordering) (x : A) (ys : List A) → Perm (insert_by cmp x ys) (x ∷ ys)
  insert_by-perm cmp x [] = Perm.rfl
  insert_by-perm cmp x (y ∷ ys) = elim (Bool-cases (is_le (cmp x y))) [
    | inl le ↦ rw le Perm.rfl
    | inr gt ↦ rw gt (Perm.trans (Perm.cons y (insert_by-perm cmp x ys)) (Perm.swap x y ys))
  ]

  pub sort_by-perm : (cmp : A → A → Ordering) (xs : List A) → Perm (sort_by cmp xs) xs
  sort_by-perm cmp [] = Perm.rfl
  sort_by-perm cmp (x ∷ xs) =
      Perm.trans (insert_by-perm cmp x (sort_by cmp xs)) (Perm.cons x (sort_by-perm cmp xs))

  All-insert_by :
      (P : A → Type 0) (cmp : A → A → Ordering) (x : A) (ys : List A)
      → P x
      → All P ys
      → All P (insert_by cmp x ys)
  All-insert_by P cmp x [] p h = (p, tt)
  All-insert_by P cmp x (y ∷ ys) p h = elim (Bool-cases (is_le (cmp x y))) [
    | inl le ↦ rw le (p, h)
    | inr gt ↦ rw gt (h.0, All-insert_by P cmp x ys p h.1)
  ]

  module _ (cmp : A → A → Ordering) (order : IsOrder cmp) where
    le_of_gt : (o : Ordering) → is_le o ≡ false → is_le (flip o) ≡ true
    le_of_gt Ordering.gt h = refl
    le_of_gt _ h = cc

    insert_by-IsSorted : (x : A) (ys : List A) → IsSorted cmp ys → IsSorted cmp (insert_by cmp x ys)
    insert_by-IsSorted x [] s = (tt, tt)
    insert_by-IsSorted x (y ∷ ys) s = elim (Bool-cases (is_le (cmp x y))) [
      | inl le ↦ rw le ((le, All-map _ _ ys (λ z h. order.le_trans x y z le h) s.0), s)
      | inr gt ↦
          let back : is_le (cmp y x) ≡ true = ap is_le (order.flips x y) ∙ le_of_gt (cmp x y) gt in
          rw gt (All-insert_by _ cmp x ys back s.0, insert_by-IsSorted x ys s.1)
    ]

    pub sort_by-IsSorted : (xs : List A) → IsSorted cmp (sort_by cmp xs)
    sort_by-IsSorted [] = tt
    sort_by-IsSorted (x ∷ xs) = insert_by-IsSorted x (sort_by cmp xs) (sort_by-IsSorted xs)

compare-flips : (a b : ℕ) → compare b a ≡ flip (compare a b)
compare-flips a b = ground arith

flip-then_with : (o p : Ordering) → then_with (flip o) (flip p) ≡ flip (then_with o p)
flip-then_with Ordering.lt p = refl
flip-then_with Ordering.eq p = refl
flip-then_with Ordering.gt p = refl

text_cmp-flips : (s t : Text) → text_cmp t s ≡ flip (text_cmp s t)
text_cmp-flips [] [] = refl
text_cmp-flips [] (d ∷ ds) = refl
text_cmp-flips (c ∷ cs) [] = refl
text_cmp-flips (c ∷ cs) (d ∷ ds) =
    rw (compare-flips c d, text_cmp-flips cs ds) (flip-then_with (compare c d) (text_cmp cs ds))

-- Comparisons of pairs, the second component where the first is equal.
trans_then :
    (a b c : ℕ) (o p q : Ordering)
    → (is_le o ≡ true → is_le p ≡ true → is_le q ≡ true)
    → is_le (then_with (compare a b) o) ≡ true
    → is_le (then_with (compare b c) p) ≡ true
    → is_le (then_with (compare a c) q) ≡ true
trans_then a b c o p q rest h k = ground arith

text_cmp_trans :
    (r s t : Text)
    → is_le (text_cmp r s) ≡ true
    → is_le (text_cmp s t) ≡ true
    → is_le (text_cmp r t) ≡ true
text_cmp_trans [] s [] h k = refl
text_cmp_trans [] s (e ∷ es) h k = refl
text_cmp_trans (c ∷ cs) [] t h k = cc
text_cmp_trans (c ∷ cs) (d ∷ ds) [] h k = cc
text_cmp_trans (c ∷ cs) (d ∷ ds) (e ∷ es) h k =
    trans_then c d e (text_cmp cs ds) (text_cmp ds es) (text_cmp cs es) (text_cmp_trans cs ds es) h
      k

-- A text and a number in one text, which compares as the pair does.
abbrev code : Text → ℕ → Text
code [] i = 0 ∷ i ∷ []
code (c ∷ cs) i = suc c ∷ code cs i

text_cmp-code :
    (s t : Text) (i j : ℕ) → text_cmp (code s i) (code t j) ≡ then_with (text_cmp s t) (compare i j)
text_cmp-code [] [] i j = ground arith
text_cmp-code [] (d ∷ ds) i j = ground arith
text_cmp-code (c ∷ cs) [] i j = ground arith
text_cmp-code (c ∷ cs) (d ∷ ds) i j = ground (arith, text_cmp-code cs ds i j)

-- By a text, and by a number where the texts are equal.
abbrev pub cmp_by : {A : Type 0} → (A → Text) → (A → ℕ) → A → A → Ordering
cmp_by name id a b = then_with (text_cmp (name a) (name b)) (compare (id a) (id b))

module _ {A : Type 0} (name : A → Text) (id : A → ℕ) where
  coded :
      (a b : A)
      → is_le (cmp_by name id a b) ≡ is_le (text_cmp (code (name a) (id a)) (code (name b) (id b)))
  coded a b = sym (ap is_le (text_cmp-code (name a) (name b) (id a) (id b)))

  pub cmp_by-IsOrder : IsOrder (cmp_by name id)
  cmp_by-IsOrder = record {
    flips = λ a b.
        sym (text_cmp-code (name b) (name a) (id b) (id a))
        ∙ text_cmp-flips (code (name a) (id a)) (code (name b) (id b))
        ∙ ap flip (text_cmp-code (name a) (name b) (id a) (id b));
    le_trans = λ a b c h k.
        coded a c
        ∙ text_cmp_trans (code (name a) (id a)) (code (name b) (id b)) (code (name c) (id c))
            (sym (coded a b) ∙ h) (sym (coded b c) ∙ k);
  }
