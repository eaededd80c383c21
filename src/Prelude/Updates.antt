-- ===== src/Prelude/Updates.antt =====
-- Further laws of updates and of single rows.
use Prim.Native.Nat.{◌+◌, ◌≤◌}
use mathlib.Core.Path.{subst, ap, ◌≡◌, refl, sym}
use mathlib.Core.Logic.{inl, inr}
use mathlib.Core.Bool.{Bool, true, false, ◌||◌}
use mathlib.Core.List.{List, [], ◌∷◌, ◌++◌, Memᴰ}
use mathlib.Core.List.Memᴰ.{head, tail}
use mathlib.Core.Option.{Option, none, some}
use native.Mathlib.Omega.{arith}
use paavo.Prelude.Tests.{◌==◌, if◌then◌else◌, Bool-cases}
use paavo.Prelude.Rows.{
  count_where, update_where, find_where, find_where-some, find_where-none, count_where_pos,
  count_where_unique,
}

module _ {ℓ} {A : Type ℓ} (q p : A → Bool) (f : A → A) where
  -- An update after which the rows affected, all of which fitted `q`, fit it no more.
  pub count_where-update-drop :
      ((x : A) → p x ≡ true → q x ≡ true)
      → ((x : A) → p x ≡ true → q (f x) ≡ false)
      → (xs : List A) → count_where q (update_where p f xs) + count_where p xs ≡ count_where q xs
  unfolding count_where update_where
  count_where-update-drop before after [] = refl
  count_where-update-drop before after (x ∷ xs) =
      ground (arith, before x, after x, count_where-update-drop before after xs)

module _ {ℓ} {A : Type ℓ} (p : A → Bool) (f : A → A)
    (keep : (x : A) → p x ≡ true → p (f x) ≡ true) where
  -- An update of the rows that fit `p`, read back.
  pub find_where-update :
      (xs : List A) {a : A}
      → find_where p xs ≡ some a
      → find_where p (update_where p f xs) ≡ some (f a)
  unfolding find_where update_where
  find_where-update [] h = cc
  find_where-update (x ∷ xs) {a} h = elim (Bool-cases (p x)) [
    | inl hit ↦
        let e : x ≡ a = ground arith in rw (hit, keep x hit, find_where) (ap (λ y. some (f y)) e)
    | inr miss ↦ rw (miss, find_where, miss) (find_where-update xs {a = a} (ground arith))
  ]

module _ {ℓ} {A : Type ℓ} (p : A → Bool) where
  pub count_where-of_find :
      (xs : List A) {a : A} → find_where p xs ≡ some a → (count_where p xs == 0) ≡ false
  unfolding find_where count_where
  count_where-of_find [] h = cc
  count_where-of_find (x ∷ xs) {a} h = ground (arith, count_where-of_find xs {a = a})

module _ {ℓ} {A : Type ℓ} (f : A → A) where
  -- Two updates that set the same are one.
  pub update_where-twice :
      (p q : A → Bool)
      → ((x : A) → f (f x) ≡ f x)
      → ((x : A) → q (f x) ≡ q x)
      → (xs : List A) → update_where q f (update_where p f xs) ≡ update_where (λ x. p x || q x) f xs
  unfolding update_where
  update_where-twice p q idem keep [] = refl
  update_where-twice p q idem keep (x ∷ xs) =
      rw (update_where-twice p q idem keep xs)
        (ap (λ y. y ∷ update_where (λ z. p z || q z) f xs) (both (p x) (q x) refl refl))
    where
      both :
          (b c : Bool)
          → p x ≡ b
          → q x ≡ c
          → (if q (if b then f x else x) then f (if b then f x else x) else (if b then f x else x))
            ≡ (if b || c then f x else x)
      both true true e g = rw (keep x, g, idem x)
      both true false e g = rw (keep x, g)
      both false true e g = rw g
      both false false e g = rw g

  -- Two tests that agree on the rows of the table.
  pub update_where-cong :
      (p q : A → Bool) (xs : List A)
      → ((x : A) → Memᴰ x xs → p x ≡ q x)
      → update_where p f xs ≡ update_where q f xs
  unfolding update_where
  update_where-cong p q [] same = refl
  update_where-cong p q (x ∷ xs) same =
      rw (same x (head refl), update_where-cong p q xs (λ y m. same y (tail m)))

module _ {ℓ} {A : Type ℓ} (p : A → Bool) where
  -- A row that is appended, where none fitted before it.
  pub find_where_skip :
      (xs : List A) (a : A)
      → count_where p xs ≡ 0
      → p a ≡ true
      → find_where p (xs ++ a ∷ []) ≡ some a
  unfolding find_where count_where
  find_where_skip [] a h hit = rw hit refl
  find_where_skip (x ∷ xs) a h hit = ground (arith, find_where_skip xs a)

module _ {ℓ} {A : Type ℓ} (p : A → Bool) where
  -- The only row that fits is the one that is found.
  pub find_where_unique :
      (xs : List A) {a : A}
      → count_where p xs ≤ 1
      → Memᴰ a xs
      → p a ≡ true
      → find_where p xs ≡ some a
  find_where_unique xs {a} unique m h = found (find_where p xs) refl
    where
      found : (o : Option A) → find_where p xs ≡ o → o ≡ some a
      found none e = absurd (omega (arith, find_where-none p xs e, count_where_pos p xs m h))
      found (some b) e =
          let (n, k) = find_where-some p xs {a = b} e in
          ap some (sym (count_where_unique p xs unique m h n k))

module _ {ℓ} {A : Type ℓ} (p : A → Bool) (f : A → A) where
  -- A row that an update does not touch Stays.
  pub mem-update_where_kept :
      (xs : List A) {a : A} → Memᴰ a xs → p a ≡ false → Memᴰ a (update_where p f xs)
  unfolding update_where
  mem-update_where_kept [] m h = m
  mem-update_where_kept (x ∷ xs) (head e) h = rw (subst (λ y. p y ≡ false) e h) (head e)
  mem-update_where_kept (x ∷ xs) (tail m) h = tail (mem-update_where_kept xs m h)
