-- ===== src/Db/Cache/Evict.antt =====
-- `evict_until_under` ends, frees what it must and no more, and the least recently used first.
use paavo.Prelude.{
  ℕ, zero, suc, ◌≤◌, ◌<◌, leb, ◌≡◌, refl, sym, subst, true, false, String, str_eq_self, Option,
  none, some, List, [], ◌∷◌, ◌++◌, Memᴰ, head, tail, arith, All, All-mem, All-of_mem, All-append,
  All-delete_where, Option-cases, Bool-cases, inl, inr, delete_where, length,
}
use mathlib.Core.Path.{subst₂}
use paavo.Prelude.Sort.{sort_by, mem-sort_by, mem-sort_by_of, sort_by-IsOrdered, IsOrdered}
use paavo.Db.Store.{BuildCacheEntry}
use paavo.Db.Cache.{is_tar, total_bytes, used_leb, first, victim, evict_loop}

abbrev pub UsedNoLater : BuildCacheEntry → BuildCacheEntry → Type 0
UsedNoLater a b = a.last_used_at ≤ b.last_used_at

first-some :
    (es : List BuildCacheEntry) {v : BuildCacheEntry}
    → first es ≡ some v
    → (r : List BuildCacheEntry) × (es ≡ v ∷ r)
first-some [] h = cc
first-some (x ∷ xs) h = (xs, ground arith)

-- The victim is an entry, and none has been unused for longer.
pub victim-oldest :
    (es : List BuildCacheEntry) {v : BuildCacheEntry}
    → victim es ≡ some v
    → Memᴰ v es × All (UsedNoLater v) es
unfolding victim
victim-oldest es {v} h =
    let (rest, e) = first-some (sort_by used_leb es) h in
    let ordered =
      sort_by-IsOrdered used_leb UsedNoLater (λ a b t. ground arith) (λ a b t. ground arith)
        (λ a b c t u. omega arith) es in
    let ordered' = subst (IsOrdered UsedNoLater) e ordered in
    (
      mem-sort_by used_leb es (subst (Memᴰ v) (sym e) (head refl)),
      All-of_mem (UsedNoLater v) es (λ c m.
          All-mem (UsedNoLater v) (v ∷ rest) (omega arith, ordered'.0) c
            (subst (Memᴰ c) e (mem-sort_by_of used_leb es m))),
    )

victim-none : (es : List BuildCacheEntry) → victim es ≡ none → es ≡ []
unfolding victim
victim-none [] h = refl
victim-none (x ∷ xs) h =
    absurd (no_first (sort_by used_leb (x ∷ xs)) h (mem-sort_by_of used_leb (x ∷ xs) (head refl)))
  where
    no_first : (l : List BuildCacheEntry) → first l ≡ none → Memᴰ x l → ⊥
    no_first [] e m = elim m [ ]
    no_first (y ∷ ys) e m = cc

length-delete-le :
    (tar : String) (es : List BuildCacheEntry) → length (delete_where (is_tar tar) es) ≤ length es
unfolding delete_where
length-delete-le tar [] = omega arith
length-delete-le tar (e ∷ es) = ground (arith, length-delete-le tar es)

length-delete-lt :
    (v : BuildCacheEntry) (es : List BuildCacheEntry)
    → Memᴰ v es
    → length (delete_where (is_tar v.tar_blake3) es) < length es
unfolding delete_where
length-delete-lt v [] m = elim m [ ]
length-delete-lt v (e ∷ es) (head p) =
    let hit : is_tar v.tar_blake3 e ≡ true =
      subst (λ (x : BuildCacheEntry). is_tar v.tar_blake3 x ≡ true) p (str_eq_self v.tar_blake3) in
    rw hit (omega (arith, length-delete-le v.tar_blake3 es))
length-delete-lt v (e ∷ es) (tail m) = ground (arith, length-delete-lt v es m)

-- Total, and under the limit at the end.
pub evict_loop_total :
    (fuel max_bytes : ℕ) (cache evicted : List BuildCacheEntry)
    → length cache < fuel
    → (rest : List BuildCacheEntry) × (out : List BuildCacheEntry) × (evict_loop fuel max_bytes
          cache evicted
        ≡ some (rest, out))
      × (total_bytes rest ≤ max_bytes)
unfolding evict_loop
evict_loop_total zero max_bytes cache evicted h = elim h [ ]
evict_loop_total (suc fuel) max_bytes cache evicted h =
    elim (Bool-cases (leb (total_bytes cache) max_bytes)) [
      | inl under ↦ (cache, evicted, rw under, ground arith)
      | inr over ↦ elim (Option-cases (victim cache)) [
        | inl gone ↦ absurd (over_empty cache (victim-none cache gone) over)
        | inr (v, found) ↦
            let shorter = length-delete-lt v cache (victim-oldest cache found).0 in
            let (rest, out, e, bound) =
              evict_loop_total fuel max_bytes (delete_where (is_tar v.tar_blake3) cache)
                (evicted ++ v ∷ []) (omega arith) in
            (rest, out, rw (over, found, evict_loop) e, bound)
      ]
    ]
  where
    over_empty : (es : List BuildCacheEntry) → es ≡ [] → leb (total_bytes es) max_bytes ≡ false → ⊥
    over_empty [] e over = ground arith
    over_empty (x ∷ xs) e over = cc

-- Whatever was evicted had not been used since anything that is left.
abbrev pub OldestFirst : List BuildCacheEntry → List BuildCacheEntry → Type 0
OldestFirst out rest = All (λ o. All (UsedNoLater o) rest) out

All-delete :
    (P : BuildCacheEntry → Type 0) (tar : String) (es : List BuildCacheEntry)
    → All P es
    → All P (delete_where (is_tar tar) es)
All-delete P tar es h = All-delete_where P (is_tar tar) es h

OldestFirst-delete :
    (out : List BuildCacheEntry) (tar : String) (es : List BuildCacheEntry)
    → OldestFirst out es
    → OldestFirst out (delete_where (is_tar tar) es)
OldestFirst-delete [] tar es h = tt
OldestFirst-delete (o ∷ out) tar es h =
    (All-delete (UsedNoLater o) tar es h.0, OldestFirst-delete out tar es h.1)

abbrev pub Split : Type 0
Split = List BuildCacheEntry × List BuildCacheEntry

abbrev pub some_split : List BuildCacheEntry → List BuildCacheEntry → Option Split
some_split rest out = some (rest, out)

pub split_parts :
    {a b c d : List BuildCacheEntry} → some_split a b ≡ some_split c d → (a ≡ c) × (b ≡ d)
split_parts e = (cc, cc)

pub evict_loop_oldest :
    (fuel max_bytes : ℕ) (cache evicted : List BuildCacheEntry) {rest out : List BuildCacheEntry}
    → evict_loop fuel max_bytes cache evicted ≡ some (rest, out)
    → OldestFirst evicted cache
    → OldestFirst out rest
unfolding evict_loop
evict_loop_oldest zero max_bytes cache evicted h old = cc
evict_loop_oldest (suc fuel) max_bytes cache evicted {rest} {out} h old =
    elim (Bool-cases (leb (total_bytes cache) max_bytes)) [
      | inl under ↦
          let e : some_split cache evicted ≡ some_split rest out = rw under at h in
          subst₂ OldestFirst (split_parts e).1 (split_parts e).0 old
      | inr over ↦ elim (Option-cases (victim cache)) [
        | inl gone ↦
            let e : some_split cache evicted ≡ some_split rest out = rw (over, gone) at h in
            subst₂ OldestFirst (split_parts e).1 (split_parts e).0 old
        | inr (v, found) ↦
            evict_loop_oldest fuel max_bytes (delete_where (is_tar v.tar_blake3) cache)
              (evicted ++ v ∷ []) {rest = rest} {out = out} (rw (over, found) at h)
              (All-append _ evicted (v ∷ []) (OldestFirst-delete evicted v.tar_blake3 cache old)
                (All-delete (UsedNoLater v) v.tar_blake3 cache (victim-oldest cache found).1, tt))
      ]
    ]
