-- ===== src/Prelude/Rows.antt =====
-- SQL statements on one table: a table is the list of its rows in insertion order, a `WHERE`
-- clause is a Boolean test of a row.
use Prim.Native.Nat.{ℕ, suc, ◌+◌, ◌≤◌, ◌<◌}
use mathlib.Core.Path.{◌≡◌, refl, sym, subst, ◌∙◌}
use mathlib.Core.Logic.{inl, inr}
use mathlib.Core.Bool.{Bool, true, false, ◌&&◌}
use mathlib.Core.List.{List, [], ◌∷◌, ◌++◌, map, Memᴰ}
use mathlib.Core.List.Memᴰ.{head, tail, cases_cons}
use mathlib.Core.Option.{Option, none, some}
use native.Mathlib.Omega.{arith}
use paavo.Prelude.Tests.{if◌then◌else◌, Bool-cases}
use paavo.Prelude.Lists.{All, length}

module _ {ℓ} {A : Type ℓ} where
  -- `SELECT * FROM t WHERE p`
  unfoldable pub rows_where : (A → Bool) → List A → List A
  rows_where p [] = []
  rows_where p (x ∷ xs) = if p x then x ∷ rows_where p xs else rows_where p xs

  -- `SELECT COUNT(*) FROM t WHERE p`
  unfoldable pub count_where : (A → Bool) → List A → ℕ
  count_where p [] = 0
  count_where p (x ∷ xs) = if p x then suc (count_where p xs) else count_where p xs

  -- `UPDATE t SET f WHERE p`; the rows affected are `count_where p`
  unfoldable pub update_where : (A → Bool) → (A → A) → List A → List A
  update_where p f [] = []
  update_where p f (x ∷ xs) = (if p x then f x else x) ∷ update_where p f xs

  -- `DELETE FROM t WHERE p`
  unfoldable pub delete_where : (A → Bool) → List A → List A
  delete_where p [] = []
  delete_where p (x ∷ xs) = if p x then delete_where p xs else x ∷ delete_where p xs

  -- `query_row`: the first row that fits
  unfoldable pub find_where : (A → Bool) → List A → Option A
  find_where p [] = none
  find_where p (x ∷ xs) = if p x then some x else find_where p xs

module _ {ℓ} {A : Type ℓ} (p : A → Bool) where
  pub mem-rows_where : (xs : List A) {a : A} → Memᴰ a (rows_where p xs) → Memᴰ a xs × (p a ≡ true)
  unfolding rows_where
  mem-rows_where [] m = elim m [ ]
  mem-rows_where (x ∷ xs) {a} m = elim (Bool-cases (p x)) [
    | inl keep ↦ elim (cases_cons (rw keep at m)) [
      | inl e ↦ (head e, subst (λ y. p y ≡ true) (sym e) keep)
      | inr rest ↦ let (m', t) = mem-rows_where xs rest in (tail m', t)
    ]
    | inr drop ↦ let (m', t) = mem-rows_where xs {a = a} (rw drop at m) in (tail m', t)
  ]

  pub mem-rows_where_of : (xs : List A) {a : A} → Memᴰ a xs → p a ≡ true → Memᴰ a (rows_where p xs)
  unfolding rows_where
  mem-rows_where_of [] m h = m
  mem-rows_where_of (x ∷ xs) (head e) h = rw (subst (λ y. p y ≡ true) e h) (head e)
  mem-rows_where_of (x ∷ xs) (tail m) h = elim (Bool-cases (p x)) [
    | inl keep ↦ rw keep (tail (mem-rows_where_of xs m h))
    | inr drop ↦ rw drop (mem-rows_where_of xs m h)
  ]

  pub count_where-eq_zero : (xs : List A) → All (λ x. p x ≡ false) xs → count_where p xs ≡ 0
  unfolding count_where
  count_where-eq_zero [] h = refl
  count_where-eq_zero (x ∷ xs) h = rw h.0 (count_where-eq_zero xs h.1)

  pub All-of_count_where : (xs : List A) → count_where p xs ≡ 0 → All (λ x. p x ≡ false) xs
  unfolding count_where
  All-of_count_where [] h = tt
  All-of_count_where (x ∷ xs) h = ground (arith, All-of_count_where xs)

  pub count_where-append :
      (xs ys : List A) → count_where p (xs ++ ys) ≡ count_where p xs + count_where p ys
  unfolding count_where
  count_where-append [] ys = omega arith
  count_where-append (x ∷ xs) ys = ground (arith, count_where-append xs ys)

  pub count_where_pos : (xs : List A) {a : A} → Memᴰ a xs → p a ≡ true → 0 < count_where p xs
  unfolding count_where
  count_where_pos [] m h = elim m [ ]
  count_where_pos (x ∷ xs) (head e) h = rw (subst (λ y. p y ≡ true) e h) (omega arith)
  count_where_pos (x ∷ xs) (tail m) h = ground (arith, count_where_pos xs m h)

  pub find_where-some : (xs : List A) {a : A} → find_where p xs ≡ some a → Memᴰ a xs × (p a ≡ true)
  unfolding find_where
  find_where-some [] h = cc
  find_where-some (x ∷ xs) {a} h = elim (Bool-cases (p x)) [
    | inl hit ↦ let e : a ≡ x = ground arith in (head e, rw e hit)
    | inr miss ↦ let (m, t) = find_where-some xs {a = a} (ground arith) in (tail m, t)
  ]

  pub find_where-none : (xs : List A) → find_where p xs ≡ none → count_where p xs ≡ 0
  unfolding find_where count_where
  find_where-none [] h = refl
  find_where-none (x ∷ xs) h = ground (arith, find_where-none xs)

module _ {ℓ} {A : Type ℓ} (q p : A → Bool) (f : A → A) where
  -- An update that makes no row fit `q` anew.
  pub count_where-update-le :
      (xs : List A)
      → ((x : A) → Memᴰ x xs → p x ≡ true → q (f x) ≡ true → q x ≡ true)
      → count_where q (update_where p f xs) ≤ count_where q xs
  unfolding count_where update_where
  count_where-update-le [] keep = omega arith
  count_where-update-le (x ∷ xs) keep =
      ground (arith, keep x (head refl), count_where-update-le xs (λ y m. keep y (tail m)))

  -- At most the rows affected can fit `q` anew.
  pub count_where-update-add :
      (xs : List A) → count_where q (update_where p f xs) ≤ count_where q xs + count_where p xs
  unfolding count_where update_where
  count_where-update-add [] = omega arith
  count_where-update-add (x ∷ xs) = ground (arith, count_where-update-add xs)

  -- An update that does not touch what `q` reads.
  pub count_where-update-eq :
      ((x : A) → p x ≡ true → q (f x) ≡ q x)
      → (xs : List A) → count_where q (update_where p f xs) ≡ count_where q xs
  unfolding count_where update_where
  count_where-update-eq keep [] = refl
  count_where-update-eq keep (x ∷ xs) = ground (arith, keep x, count_where-update-eq keep xs)

module _ {ℓ} {A : Type ℓ} (q p : A → Bool) where
  pub count_where-delete-le : (xs : List A) → count_where q (delete_where p xs) ≤ count_where q xs
  unfolding count_where delete_where
  count_where-delete-le [] = omega arith
  count_where-delete-le (x ∷ xs) = ground (arith, count_where-delete-le xs)

  pub count_where_mono :
      ((x : A) → q x ≡ true → p x ≡ true) → (xs : List A) → count_where q xs ≤ count_where p xs
  unfolding count_where
  count_where_mono imp [] = omega arith
  count_where_mono imp (x ∷ xs) = ground (arith, imp x, count_where_mono imp xs)

module _ {ℓ κ} {A : Type ℓ} (P : A → Type κ) (p : A → Bool) where
  pub All-update_where :
      (f : A → A)
      → ((x : A) → p x ≡ true → P x → P (f x))
      → (xs : List A) → All P xs
      → All P (update_where p f xs)
  unfolding update_where
  All-update_where f keep [] h = tt
  All-update_where f keep (x ∷ xs) h = ground (arith, keep x, h.0, All-update_where f keep xs h.1)

  pub All-delete_where : (xs : List A) → All P xs → All P (delete_where p xs)
  unfolding delete_where
  All-delete_where [] h = tt
  All-delete_where (x ∷ xs) h = ground (arith, h.0, All-delete_where xs h.1)

module _ {ℓ} {A : Type ℓ} (p : A → Bool) (f : A → A) where
  pub mem-update_where :
      (xs : List A) {b : A}
      → Memᴰ b (update_where p f xs)
      → (a : A) × Memᴰ a xs × (b ≡ (if p a then f a else a))
  unfolding update_where
  mem-update_where [] m = elim m [ ]
  mem-update_where (x ∷ xs) (head e) = (x, head refl, e)
  mem-update_where (x ∷ xs) (tail m) = let (a, m', e) = mem-update_where xs m in (a, tail m', e)

module _ {ℓ} {A : Type ℓ} (p : A → Bool) where
  pub length-rows_where : (xs : List A) → length (rows_where p xs) ≡ count_where p xs
  unfolding rows_where count_where
  length-rows_where [] = refl
  length-rows_where (x ∷ xs) = ground (arith, length-rows_where xs)

  -- The rows that fit both, counted in a column of those that fit one.
  pub count_where-map-rows {κ} :
      {B : Type κ} (q : B → Bool) (f : A → B) (xs : List A)
      → count_where q (map f (rows_where p xs)) ≡ count_where (λ x. p x && q (f x)) xs
  unfolding count_where rows_where
  count_where-map-rows q f [] = refl
  count_where-map-rows q f (x ∷ xs) = elim (Bool-cases (p x)) [
    | inl keep ↦ rw keep (ground (arith, count_where-map-rows q f xs))
    | inr drop ↦ rw drop (count_where-map-rows q f xs)
  ]

module _ {ℓ} {A : Type ℓ} (p : A → Bool) where
  -- Where at most one row fits, two rows that fit are the same.
  pub count_where_unique :
      (xs : List A) {a b : A}
      → count_where p xs ≤ 1
      → Memᴰ a xs
      → p a ≡ true
      → Memᴰ b xs
      → p b ≡ true
      → a ≡ b
  unfolding count_where
  count_where_unique [] u m h n k = elim m [ ]
  count_where_unique (x ∷ xs) u (head e) h (head f) k = e ∙ sym f
  count_where_unique (x ∷ xs) u (head e) h (tail n) k =
      absurd (ground (arith, subst (λ y. p y ≡ true) e h, count_where_pos p xs n k))
  count_where_unique (x ∷ xs) u (tail m) h (head f) k =
      absurd (ground (arith, subst (λ y. p y ≡ true) f k, count_where_pos p xs m h))
  count_where_unique (x ∷ xs) u (tail m) h (tail n) k = count_where_unique xs (ground arith) m h n k
