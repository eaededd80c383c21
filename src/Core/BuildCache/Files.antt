-- ===== src/Core/BuildCache/Files.antt =====
-- The cache answers with files that stand on the disk.
use paavo.Prelude.{
  ℕ, ◌≡◌, refl, ap, true, String, str_eq_self, none, some, List, [], ◌∷◌, ◌⊎◌, ltb, inl, inr, arith,
  Bool-cases, Option-cases, count_where, delete_where, find_where, find_where-none,
  find_where-update, find_where_skip, count_where-of_find,
}
use paavo.Db.Store.{Database, BuildCacheEntry}
use paavo.Db.Cache
use paavo.Db.Cache.{is_tar, find}
use paavo.Core.BuildCache.{
  Disk, FileKind, absent, special, regular, is_file, hit, miss, cache_lookup, cache_store,
}

deleted-gone :
    (tar : String) (entries : List BuildCacheEntry)
    → find_where (is_tar tar) (delete_where (is_tar tar) entries) ≡ none
unfolding find_where delete_where
deleted-gone tar [] = refl
deleted-gone tar (e ∷ es) = elim (Bool-cases (is_tar tar e)) [
  | inl drop ↦ rw drop (deleted-gone tar es)
  | inr keep ↦ rw (keep, find_where, keep) (deleted-gone tar es)
]

-- A hit names the file of the tar's entry, which stands on the disk; after a miss the tar has no
-- entry.
cache_lookup-cases :
    (disk : Disk) (tar : String) (now_ms : ℕ) (db : Database)
    → ((e : BuildCacheEntry) × (find tar db ≡ some e)
        × (is_file (disk e.elf_path) ≡ true)
        × ((cache_lookup disk tar now_ms db).1 ≡ hit e.elf_path))
      ⊎ (((cache_lookup disk tar now_ms db).1 ≡ miss)
          × (find tar (cache_lookup disk tar now_ms db).0 ≡ none))
unfolding cache_lookup find Cache.delete
cache_lookup-cases disk tar now_ms db = elim (Option-cases (find tar db)) [
  | inl nothing ↦ inr (rw (nothing, cache_lookup, find) (refl, nothing))
  | inr (e, found) ↦ elim (Bool-cases (is_file (disk e.elf_path))) [
    | inl there ↦ inl (e, found, there, rw (found, cache_lookup, find, there) refl)
    | inr gone ↦ inr (rw (found, cache_lookup, find, gone) (refl, deleted-gone tar db.cache))
  ]
]

upsert-find :
    (e : BuildCacheEntry) (db : Database)
    → (kept : BuildCacheEntry) × (find e.tar_blake3 (Cache.upsert e db).0 ≡ some kept)
      × (kept.elf_path ≡ e.elf_path)
unfolding Cache.upsert find
upsert-find e db = elim (Option-cases (find_where (is_tar e.tar_blake3) db.cache)) [
  | inl new ↦
      let free = find_where-none (is_tar e.tar_blake3) db.cache new in
      (
        e,
        rw free (find_where_skip (is_tar e.tar_blake3) db.cache e free (str_eq_self e.tar_blake3)),
        refl,
      )
  | inr (old, found) ↦
      let taken : ltb 0 (count_where (is_tar e.tar_blake3) db.cache) ≡ true =
        ground (arith, count_where-of_find (is_tar e.tar_blake3) db.cache {a = old} found) in
      (
        refreshed old,
        rw taken (find_where-update (is_tar e.tar_blake3) refreshed (λ x h. h) db.cache found),
        refl,
      )
]
  where
    refreshed : BuildCacheEntry → BuildCacheEntry
    refreshed old = record old {
      elf_path = e.elf_path;
      last_used_at = e.last_used_at;
      size_bytes = e.size_bytes;
    }

stored_file :
    (disk : Disk) (tar elf_path : String) (now_ms : ℕ) (db : Database)
    → (cache_store disk tar elf_path now_ms db).1 ≡ true
    → (is_file (disk elf_path) ≡ true)
      × ((kept : BuildCacheEntry) × (find tar (cache_store disk tar elf_path now_ms db).0
            ≡ some kept)
          × (kept.elf_path ≡ elf_path))
unfolding cache_store
stored_file disk tar elf_path now_ms db stored = by_kind (disk elf_path) refl
  where
    by_kind :
        (k : FileKind)
        → disk elf_path ≡ k
        → (is_file (disk elf_path) ≡ true)
          × ((kept : BuildCacheEntry) × (find tar (cache_store disk tar elf_path now_ms db).0
                ≡ some kept)
              × (kept.elf_path ≡ elf_path))
    by_kind absent e = cc (rw (e, cache_store) at stored)
    by_kind special e = cc (rw (e, cache_store) at stored)
    by_kind (regular size) e = (rw e refl, rw (e, cache_store) (upsert-find _ db))

-- What was stored for a tar is what the next lookup of it answers, whatever the cache held.
pub cache_lookup-cache_store :
    (disk : Disk) (tar elf_path : String) (now_ms later_ms : ℕ) (db : Database)
    → (cache_store disk tar elf_path now_ms db).1 ≡ true
    → (cache_lookup disk tar later_ms (cache_store disk tar elf_path now_ms db).0).1 ≡ hit elf_path
unfolding cache_lookup
cache_lookup-cache_store disk tar elf_path now_ms later_ms db stored =
    let (there, (kept, found, same)) = stored_file disk tar elf_path now_ms db stored in
    let on_disk : is_file (disk kept.elf_path) ≡ true = rw same there in
    rw (found, cache_lookup, on_disk) (ap hit same)
