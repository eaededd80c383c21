-- ===== src/Db/Cache.antt =====
-- crates/paavo-db/src/build_cache.rs: the `build_cache` table and its LRU eviction. Sizes are of
-- files on one disk, so they and their sum stay within the signed 64 bits of the columns.
pub mod Evict
pub mod Needed
use paavo.Prelude.{
  ℕ, zero, suc, ◌+◌, ltb, leb, ◌==◌, str_eq, Bool, true, false, String, Option, none, some, List,
  [], ◌∷◌, ◌++◌, if◌then◌else◌, count_where, update_where, delete_where, find_where, length,
}
use paavo.Prelude.Sort.{sort_by}
use paavo.Db.Store.{
  Database, BuildCacheEntry, Action, Result, ok, err, sqlite, integer_overflow, fits_i64,
}

abbrev pub is_tar : String → BuildCacheEntry → Bool
is_tar tar e = str_eq e.tar_blake3 tar

-- `ON CONFLICT` keeps `built_at`.
unfoldable pub upsert : BuildCacheEntry → Action (Unit {0})
upsert e db =
    if ltb 0 (count_where (is_tar e.tar_blake3) db.cache)
    then (
      record db {
        cache =
            update_where (is_tar e.tar_blake3)
              (λ old. record old {
                elf_path = e.elf_path;
                last_used_at = e.last_used_at;
                size_bytes = e.size_bytes;
              })
              db.cache;
      },
      ok tt,
    )
    else (record db { cache = db.cache ++ e ∷ [] }, ok tt)

unfoldable pub find : String → Database → Option BuildCacheEntry
find tar db = find_where (is_tar tar) db.cache

unfoldable pub touch_last_used : String → ℕ → Action (Unit {0})
touch_last_used tar now_ms db = (
  record db {
    cache = update_where (is_tar tar) (λ e. record e { last_used_at = now_ms }) db.cache;
  },
  ok tt,
)

unfoldable pub delete : String → Action Bool
delete tar db = (
  record db { cache = delete_where (is_tar tar) db.cache },
  ok (ltb 0 (count_where (is_tar tar) db.cache)),
)

-- `SUM(size_bytes)`
unfoldable pub total_bytes : List BuildCacheEntry → ℕ
total_bytes [] = 0
total_bytes (e ∷ es) = e.size_bytes + total_bytes es

pub record BuildCacheStats : Type 0 where
  pub bytes : ℕ
  pub entries : ℕ

unfoldable pub stats : Database → Result BuildCacheStats
unfolding total_bytes
stats db =
    if fits_i64 (total_bytes db.cache)
    then ok (record { bytes = total_bytes db.cache; entries = length db.cache })
    else err (sqlite integer_overflow)

abbrev pub used_leb : BuildCacheEntry → BuildCacheEntry → Bool
used_leb a b = leb a.last_used_at b.last_used_at

abbrev pub first {ℓ} : {A : Type ℓ} → List A → Option A
first [] = none
first (x ∷ xs) = some x

-- `ORDER BY last_used_at ASC LIMIT 1`
unfoldable pub victim : List BuildCacheEntry → Option BuildCacheEntry
victim es = first (sort_by used_leb es)

-- The loop, with the entries evicted so far; `none` means that the fuel ran out.
unfoldable pub evict_loop :
    ℕ
    → ℕ
    → List BuildCacheEntry
    → List BuildCacheEntry
    → Option (List BuildCacheEntry × List BuildCacheEntry)
unfolding total_bytes victim
evict_loop zero max_bytes cache evicted = none
evict_loop (suc fuel) max_bytes cache evicted =
    if leb (total_bytes cache) max_bytes then some (cache, evicted) else elim (victim cache) [
      | none ↦ some (cache, evicted)
      | some v ↦
          evict_loop fuel max_bytes (delete_where (is_tar v.tar_blake3) cache) (evicted ++ v ∷ [])
    ]

-- Each round deletes an entry, so one round more than there are entries is enough.
unfoldable pub evict_until_under : ℕ → Database → Option (Database × List BuildCacheEntry)
unfolding evict_loop
evict_until_under max_bytes db = elim (evict_loop (suc (length db.cache)) max_bytes db.cache []) [
  | none ↦ none
  | some (cache, evicted) ↦ some (record db { cache = cache }, evicted)
]
