-- ===== src/Db/Decode.antt =====
-- Reading a table back: a list that decodes is the list of the rows themselves.
use paavo.Prelude.{All, ◌∙◌, Memᴰ, cases_cons, inl, inr, List, [], ◌∷◌, ◌≡◌, refl, ap, arith}
use paavo.Db.Store.{Result, ok, err, panicked, cons_result, decode_all, BoardRow, JobRow}
use paavo.Db.Board
use paavo.Db.Job

module _ {ℓ} {A : Type ℓ} (f : A → Result A) (same : (a b : A) → f a ≡ ok b → b ≡ a) where
  pub decode_all-eq : (xs ys : List A) → decode_all f xs ≡ ok ys → ys ≡ xs
  unfolding decode_all
  decode_all-eq [] ys h = ground arith
  decode_all-eq (x ∷ xs) ys h = both (f x) (decode_all f xs) (same x) (decode_all-eq xs) h
    where
      both :
          (r : Result A) (rs : Result (List A))
          → ((b : A) → r ≡ ok b → b ≡ x)
          → ((zs : List A) → rs ≡ ok zs → zs ≡ xs)
          → cons_result r rs ≡ ok ys
          → ys ≡ x ∷ xs
      both (ok a) (ok as') e es k = cc (e a refl, es as' refl)
      both (ok a) (err why) e es k = cc
      both (ok a) (panicked why) e es k = cc
      both (err why) rs e es k = cc
      both (panicked why) rs e es k = cc

pub Board-from_row_same : (a b : BoardRow) → Board.from_row a ≡ ok b → b ≡ a
unfolding Board.from_row
Board-from_row_same a b h = ground arith

pub Job-from_row_same : (a b : JobRow) → Job.from_row a ≡ ok b → b ≡ a
unfolding Job.from_row
Job-from_row_same a b h = ground arith

module _ {ℓ} {A : Type ℓ} (f : A → Result A) where
  pub decode_all_total : (xs : List A) → All (λ x. f x ≡ ok x) xs → decode_all f xs ≡ ok xs
  unfolding decode_all
  decode_all_total [] h = refl
  decode_all_total (x ∷ xs) h = rw (h.0, decode_all_total xs h.1)

module _ {ℓ κ} {A : Type ℓ} {B : Type κ} (f : A → Result B) where
  -- A list decodes only if each of its rows does.
  pub decode_all-mem :
      (xs : List A) {ys : List B} {a : A}
      → decode_all f xs ≡ ok ys
      → Memᴰ a xs
      → (b : B) × (f a ≡ ok b)
  unfolding decode_all
  decode_all-mem [] h m = elim m [ ]
  decode_all-mem (x ∷ xs) {a} h m =
      let (first, rest) = split (f x) (decode_all f xs) h in
      elim (cases_cons m) [
        | inl e ↦ let (b, at) = first in (b, ap f e ∙ at)
        | inr m' ↦ let (zs, at) = rest in decode_all-mem xs {ys = zs} at m'
      ]
    where
      split :
          {zs : List B} (r : Result B) (rs : Result (List B))
          → cons_result r rs ≡ ok zs
          → ((b : B) × (r ≡ ok b)) × ((bs : List B) × (rs ≡ ok bs))
      split (ok b) (ok bs) k = ((b, refl), (bs, refl))
      split (ok b) (err e) k = cc
      split (ok b) (panicked why) k = cc
      split (err e) rs k = cc
      split (panicked why) rs k = cc
