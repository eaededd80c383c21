-- ===== src/Prelude/Sort.antt =====
-- `ORDER BY` and Rust's stable `sort_by`: insertion into a sorted list keeps equal rows in the
-- order in which they stood.
use paavo.Prelude.Tests.{if◌then◌else◌, Bool-cases}
use paavo.Prelude.Lists.{length, All, All-mem, All-of_mem, take, mem-take}
use Prim.Native.Nat.{ℕ, zero, suc, ◌≤◌}
use mathlib.Core.Path.{◌≡◌, refl, sym, subst, ◌∙◌}
use mathlib.Core.Option.{some}
use paavo.Prelude.Rows.{find_where, count_where, count_where-eq_zero}
use mathlib.Core.Logic.{inl, inr}
use mathlib.Core.Bool.{Bool, true, false, false≢true}
use mathlib.Core.List.{List, [], ◌∷◌, Memᴰ}
use mathlib.Core.List.Memᴰ.{head, tail, cases_cons}
use native.Mathlib.Omega.{arith}

module _ {ℓ} {A : Type ℓ} (le : A → A → Bool) where
  unfoldable pub insert_by : A → List A → List A
  insert_by x [] = x ∷ []
  insert_by x (y ∷ ys) = if le x y then x ∷ y ∷ ys else y ∷ insert_by x ys

  unfoldable pub sort_by : List A → List A
  unfolding insert_by
  sort_by [] = []
  sort_by (x ∷ xs) = insert_by x (sort_by xs)

  mem-insert_by : (x : A) (ys : List A) {a : A} → Memᴰ a (x ∷ ys) → Memᴰ a (insert_by x ys)
  unfolding insert_by
  mem-insert_by x [] m = m
  mem-insert_by x (y ∷ ys) (head e) = elim (Bool-cases (le x y)) [
    | inl first ↦ rw first (head e)
    | inr later ↦ rw later (tail (mem-insert_by x ys (head e)))
  ]
  mem-insert_by x (y ∷ ys) (tail (head e)) = elim (Bool-cases (le x y)) [
    | inl first ↦ rw first (tail (head e))
    | inr later ↦ rw later (head e)
  ]
  mem-insert_by x (y ∷ ys) (tail (tail m)) = elim (Bool-cases (le x y)) [
    | inl first ↦ rw first (tail (tail m))
    | inr later ↦ rw later (tail (mem-insert_by x ys (tail m)))
  ]

  pub mem-sort_by_of : (xs : List A) {a : A} → Memᴰ a xs → Memᴰ a (sort_by xs)
  unfolding sort_by
  mem-sort_by_of [] m = m
  mem-sort_by_of (x ∷ xs) (head e) = mem-insert_by x (sort_by xs) (head e)
  mem-sort_by_of (x ∷ xs) (tail m) = mem-insert_by x (sort_by xs) (tail (mem-sort_by_of xs m))

module _ {ℓ κ} {A : Type ℓ} (le : A → A → Bool) (P : A → Type κ) where
  All-insert_by : (x : A) (ys : List A) → P x → All P ys → All P (insert_by le x ys)
  unfolding insert_by
  All-insert_by x [] h hs = (h, hs)
  All-insert_by x (y ∷ ys) h hs = elim (Bool-cases (le x y)) [
    | inl first ↦ rw first (h, hs)
    | inr later ↦ rw later (hs.0, All-insert_by x ys h hs.1)
  ]

  pub All-sort_by : (xs : List A) → All P xs → All P (sort_by le xs)
  unfolding sort_by
  All-sort_by [] h = tt
  All-sort_by (x ∷ xs) h = All-insert_by x (sort_by le xs) h.0 (All-sort_by xs h.1)

module _ {ℓ} {A : Type ℓ} (le : A → A → Bool) where
  pub mem-sort_by : (xs : List A) {a : A} → Memᴰ a (sort_by le xs) → Memᴰ a xs
  mem-sort_by xs {a} m =
      let members = All-of_mem (λ b. Memᴰ b xs) xs (λ b h. h) in
      All-mem (λ b. Memᴰ b xs) (sort_by le xs) (All-sort_by le (λ b. Memᴰ b xs) xs members) a m

module _ {ℓ κ} {A : Type ℓ} (R : A → A → Type κ) where
  -- Each row stands in the relation to all that follow it.
  abbrev pub IsOrdered : List A → Type κ
  IsOrdered [] = Unit
  IsOrdered (x ∷ xs) = All (R x) xs × IsOrdered xs

  pub IsOrdered-take : (n : ℕ) (xs : List A) → IsOrdered xs → IsOrdered (take n xs)
  IsOrdered-take zero xs h = tt
  IsOrdered-take (suc n) [] h = tt
  IsOrdered-take (suc n) (x ∷ xs) h = (
    All-of_mem (R x) (take n xs) (λ a m. All-mem (R x) xs h.0 a (mem-take n xs m)),
    IsOrdered-take n xs h.1,
  )

-- The comparison `le` need only imply a transitive relation, in the one direction or the other.
module _ {ℓ κ} {A : Type ℓ} (le : A → A → Bool) (R : A → A → Type κ)
    (holds : (a b : A) → le a b ≡ true → R a b) (fails : (a b : A) → le a b ≡ false → R b a)
    (trans : (a b c : A) → R a b → R b c → R a c) where
  IsOrdered-insert_by : (x : A) (ys : List A) → IsOrdered R ys → IsOrdered R (insert_by le x ys)
  unfolding insert_by
  IsOrdered-insert_by x [] h = (tt, h)
  IsOrdered-insert_by x (y ∷ ys) h = elim (Bool-cases (le x y)) [
    | inl first ↦ rw first (
      (
        holds x y first,
        All-of_mem (R x) ys (λ a m. trans x y a (holds x y first) (All-mem (R y) ys h.0 a m)),
      ),
      h,
    )
    | inr later ↦
        rw later (All-insert_by le (R y) x ys (fails x y later) h.0, IsOrdered-insert_by x ys h.1)
  ]

  pub sort_by-IsOrdered : (xs : List A) → IsOrdered R (sort_by le xs)
  unfolding sort_by
  sort_by-IsOrdered [] = tt
  sort_by-IsOrdered (x ∷ xs) = IsOrdered-insert_by x (sort_by le xs) (sort_by-IsOrdered xs)

module _ {ℓ} {A : Type ℓ} (le : A → A → Bool) where
  length-insert_by : (x : A) (ys : List A) → length (insert_by le x ys) ≡ suc (length ys)
  unfolding insert_by
  length-insert_by x [] = refl
  length-insert_by x (y ∷ ys) = ground (arith, length-insert_by x ys)

  pub length-sort_by : (xs : List A) → length (sort_by le xs) ≡ length xs
  unfolding sort_by
  length-sort_by [] = refl
  length-sort_by (x ∷ xs) = omega (arith, length-insert_by x (sort_by le xs), length-sort_by xs)

module _ {ℓ κ} {A : Type ℓ} (R : A → A → Type κ) (p : A → Bool) (rel_refl : (a : A) → R a a) where
  -- In an ordered list the first row that fits comes before all that fit.
  pub find_where-least :
      (xs : List A) {a : A}
      → IsOrdered R xs
      → find_where p xs ≡ some a
      → (b : A) → Memᴰ b xs
      → p b ≡ true
      → R a b
  unfolding find_where
  find_where-least [] ordered h b m t = cc
  find_where-least (x ∷ xs) {a} ordered h b m t = elim (Bool-cases (p x)) [
    | inl hit ↦
        let e : x ≡ a = ground arith in
        subst (λ y. R y b) e (All-mem (R x) (x ∷ xs) (rel_refl x, ordered.0) b m)
    | inr miss ↦ elim (cases_cons m) [
      | inl e ↦ absurd (false≢true (sym miss ∙ subst (λ y. p y ≡ true) e t))
      | inr m' ↦ find_where-least xs {a = a} ordered.1 (ground arith) b m' t
    ]
  ]

module _ {ℓ} {A : Type ℓ} (le : A → A → Bool) (p : A → Bool) where
  count_where-insert_by :
      (x : A) (ys : List A) → count_where p (insert_by le x ys) ≡ count_where p (x ∷ ys)
  unfolding insert_by count_where
  count_where-insert_by x [] = refl
  count_where-insert_by x (y ∷ ys) = ground (arith, count_where-insert_by x ys)

  -- Sorting loses and adds no row.
  pub count_where-sort_by : (xs : List A) → count_where p (sort_by le xs) ≡ count_where p xs
  unfolding sort_by count_where
  count_where-sort_by [] = refl
  count_where-sort_by (x ∷ xs) =
      ground (arith, count_where-insert_by x (sort_by le xs), count_where-sort_by xs)

module _ {ℓ κ} {A : Type ℓ} (R : A → A → Type κ) (p : A → Bool)
    (down : (x y : A) → R x y → p y ≡ true → p x ≡ true) where
  -- In an ordered list whose first rows fit, as many of the first rows fit as fit at all.
  pub All-take_ordered :
      (n : ℕ) (xs : List A)
      → IsOrdered R xs
      → n ≤ count_where p xs
      → All (λ x. p x ≡ true) (take n xs)
  unfolding count_where
  All-take_ordered zero xs ordered enough = tt
  All-take_ordered (suc n) [] ordered enough = tt
  All-take_ordered (suc n) (x ∷ xs) ordered enough = elim (Bool-cases (p x)) [
    | inl fits ↦ (fits, All-take_ordered n xs ordered.1 (ground (arith, enough, fits)))
    | inr misfit ↦
        let rest : All (λ y. p y ≡ false) xs = All-of_mem _ xs λ y m. elim (Bool-cases (p y)) [
          | inl later ↦ absurd (cc (misfit, down x y (All-mem (R x) xs ordered.0 y m) later))
          | inr e ↦ e
        ] in
        absurd (ground (arith, enough, misfit, count_where-eq_zero p xs rest))
  ]
