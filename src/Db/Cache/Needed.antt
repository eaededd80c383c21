-- ===== src/Db/Cache/Needed.antt =====
-- `evict_until_under` evicts nothing that it need not: the bytes add up, and before the last
-- eviction the cache was over its limit.
use paavo.Prelude.{
  ℕ, zero, suc, ◌+◌, ◌≤◌, ◌<◌, leb, ◌≡◌, refl, sym, subst, ap, Bool, true, String, str_eq_self,
  some, List, [], ◌∷◌, ◌++◌, Memᴰ, head, tail, arith, Option-cases, Bool-cases, inl, inr, ◌⊎◌,
  count_where, delete_where, length, count_where-delete-le, count_where_pos,
}
use paavo.Db.Store.{Database, BuildCacheEntry}
use paavo.Db.Cache.{is_tar, total_bytes, victim, evict_loop, evict_until_under}
use paavo.Db.Cache.Evict.{
  OldestFirst, victim-oldest, evict_loop_total, evict_loop_oldest, split_parts, some_split,
}

-- The primary key of the table.
abbrev pub HasUniqueTars : List BuildCacheEntry → Type 0
HasUniqueTars es = (tar : String) → count_where (is_tar tar) es ≤ 1

delete_where-absent :
    (p : BuildCacheEntry → Bool) (es : List BuildCacheEntry)
    → count_where p es ≡ 0
    → delete_where p es ≡ es
unfolding delete_where count_where
delete_where-absent p [] h = refl
delete_where-absent p (e ∷ es) h = ground (arith, delete_where-absent p es)

total_bytes-delete :
    (v : BuildCacheEntry) (es : List BuildCacheEntry)
    → count_where (is_tar v.tar_blake3) es ≤ 1
    → Memᴰ v es
    → total_bytes (delete_where (is_tar v.tar_blake3) es) + v.size_bytes ≡ total_bytes es
unfolding total_bytes delete_where count_where
total_bytes-delete v [] u m = elim m [ ]
total_bytes-delete v (e ∷ es) u (head p) =
    let hit : is_tar v.tar_blake3 e ≡ true =
      subst (λ (x : BuildCacheEntry). is_tar v.tar_blake3 x ≡ true) p (str_eq_self v.tar_blake3) in
    let size : v.size_bytes ≡ e.size_bytes = ap (λ (x : BuildCacheEntry). x.size_bytes) p in
    ground (arith, delete_where-absent (is_tar v.tar_blake3) es)
total_bytes-delete v (e ∷ es) u (tail m) = ground (
  arith,
  total_bytes-delete v es,
  count_where_pos (is_tar v.tar_blake3) es m,
  str_eq_self v.tar_blake3,
)

total_bytes-append :
    (xs ys : List BuildCacheEntry) → total_bytes (xs ++ ys) ≡ total_bytes xs + total_bytes ys
unfolding total_bytes
total_bytes-append [] ys = omega arith
total_bytes-append (x ∷ xs) ys = omega (arith, total_bytes-append xs ys)

-- Nothing more was evicted, or the last eviction was from a cache over its limit.
abbrev pub EndsNeeded :
    ℕ → List BuildCacheEntry → List BuildCacheEntry → List BuildCacheEntry → Type 0
EndsNeeded max_bytes evicted rest out =
    (out ≡ evicted)
    ⊎ ((before : List BuildCacheEntry) × (v : BuildCacheEntry) × (out ≡ before ++ v ∷ [])
        × (max_bytes < total_bytes rest + v.size_bytes))

single_bytes : (v : BuildCacheEntry) → total_bytes (v ∷ []) ≡ v.size_bytes
unfolding total_bytes
single_bytes v = omega arith

delete-HasUniqueTars :
    (tar : String) (es : List BuildCacheEntry)
    → HasUniqueTars es
    → HasUniqueTars (delete_where (is_tar tar) es)
delete-HasUniqueTars tar es u t =
    omega (arith, count_where-delete-le (is_tar t) (is_tar tar) es, u t)

evict_loop_bytes :
    (fuel max_bytes : ℕ) (cache evicted : List BuildCacheEntry) {rest out : List BuildCacheEntry}
    → HasUniqueTars cache
    → evict_loop fuel max_bytes cache evicted ≡ some (rest, out)
    → (total_bytes rest + total_bytes out ≡ total_bytes cache + total_bytes evicted)
      × EndsNeeded max_bytes evicted rest out
unfolding evict_loop
evict_loop_bytes zero max_bytes cache evicted u h = cc
evict_loop_bytes (suc fuel) max_bytes cache evicted {rest} {out} u h =
    elim (Bool-cases (leb (total_bytes cache) max_bytes)) [
      | inl under ↦
          let e : some_split cache evicted ≡ some_split rest out = rw under at h in
          kept (split_parts e).0 (split_parts e).1
      | inr over ↦ elim (Option-cases (victim cache)) [
        | inl gone ↦
            let e : some_split cache evicted ≡ some_split rest out = rw (over, gone) at h in
            kept (split_parts e).0 (split_parts e).1
        | inr (v, found) ↦
            let (bytes, needed) =
              evict_loop_bytes fuel max_bytes (delete_where (is_tar v.tar_blake3) cache)
                (evicted ++ v ∷ []) {rest = rest} {out = out}
                (delete-HasUniqueTars v.tar_blake3 cache u) (rw (over, found) at h) in
            let freed = total_bytes-delete v cache (u v.tar_blake3) (victim-oldest cache found).0 in
            let pushed = total_bytes-append evicted (v ∷ []) in
            let single : total_bytes (v ∷ []) ≡ v.size_bytes = single_bytes v in
            (omega arith, last v needed freed bytes pushed single (ground arith))
      ]
    ]
  where
    kept :
        cache ≡ rest
        → evicted ≡ out
        → (total_bytes rest + total_bytes out ≡ total_bytes cache + total_bytes evicted)
          × EndsNeeded max_bytes evicted rest out
    kept e f = (rw (e, f), inl (sym f))

    last :
        (v : BuildCacheEntry)
        → EndsNeeded max_bytes (evicted ++ v ∷ []) rest out
        → total_bytes (delete_where (is_tar v.tar_blake3) cache) + v.size_bytes ≡ total_bytes cache
        → total_bytes rest + total_bytes out
          ≡ total_bytes (delete_where (is_tar v.tar_blake3) cache) + total_bytes (evicted ++ v ∷ [])
        → total_bytes (evicted ++ v ∷ []) ≡ total_bytes evicted + total_bytes (v ∷ [])
        → total_bytes (v ∷ []) ≡ v.size_bytes
        → max_bytes < total_bytes cache
        → EndsNeeded max_bytes evicted rest out
    last v (inr more) freed bytes pushed single over = inr more
    last v (inl e) freed bytes pushed single over =
        inr (evicted, v, e, omega (arith, ap total_bytes e))

-- The whole of it: the eviction ends with the cache within its limit, oldest first, no byte
-- unaccounted for, and with a last eviction that was needed.
pub record IsEviction (max_bytes : ℕ) (cache rest out : List BuildCacheEntry) : Type 0 where
  pub within : total_bytes rest ≤ max_bytes
  pub oldest_first : OldestFirst out rest
  pub accounted : total_bytes rest + total_bytes out ≡ total_bytes cache
  pub needed :
      (out ≡ [])
      ⊎ ((before : List BuildCacheEntry) × (v : BuildCacheEntry) × (out ≡ before ++ v ∷ [])
          × (max_bytes < total_bytes rest + v.size_bytes))

-- With distinct tars the eviction ends, with the cache within its limit, the entries evicted oldest
-- first, all bytes accounted for, and the last eviction needed.
pub evict_until_under_lem :
    (max_bytes : ℕ) (db : Database)
    → HasUniqueTars db.cache
    → (rest : List BuildCacheEntry) × (out : List BuildCacheEntry) × (evict_until_under max_bytes db
        ≡ some (record db { cache = rest }, out))
      × IsEviction max_bytes db.cache rest out
unfolding evict_until_under total_bytes
evict_until_under_lem max_bytes db u =
    let (rest, out, e, within) =
      evict_loop_total (suc (length db.cache)) max_bytes db.cache [] (omega arith) in
    let (bytes, needed) =
      evict_loop_bytes (suc (length db.cache)) max_bytes db.cache [] {rest = rest} {out = out} u
        e in
    (
      rest,
      out,
      rw (e, evict_until_under),
      record {
        within = within;
        oldest_first =
            evict_loop_oldest (suc (length db.cache)) max_bytes db.cache [] {rest = rest}
              {out = out} e tt;
        accounted = omega arith;
        needed = needed;
      },
    )
