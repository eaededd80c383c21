-- ===== src/Core/BuildCache.antt =====
-- crates/paavo-core/src/build_cache.rs: the build cache over its table and the files on disk. The
-- disk is what stands at each path; removing a file cannot fail in a way that the code looks at.
pub mod Files
use paavo.Prelude.{
  ℕ, ◌≡◌, refl, Bool, true, false, String, str_eq, Option, none, some, List, [], ◌∷◌, if◌then◌else◌,
  if◌then◌else◌,
}
use paavo.Db.Store.{Database, BuildCacheEntry, Result}
use paavo.Db.Cache
use paavo.Db.Cache.{evict_until_under}

pub data FileKind : Type 0 where
  absent : FileKind
  special : FileKind
  regular : ℕ → FileKind

abbrev pub Disk : Type 0
Disk = String → FileKind

abbrev pub is_file : FileKind → Bool
is_file absent = false
is_file special = false
is_file (regular size) = true

pub data CacheLookup : Type 0 where
  hit : String → CacheLookup
  miss : CacheLookup

-- A row whose file is gone is dropped.
unfoldable pub cache_lookup : Disk → String → ℕ → Database → Database × CacheLookup
unfolding Cache.find Cache.delete Cache.touch_last_used
cache_lookup disk tar now_ms db = elim (Cache.find tar db) [
  | none ↦ (db, miss)
  | some entry ↦
      if is_file (disk entry.elf_path)
      then ((Cache.touch_last_used tar now_ms db).0, hit entry.elf_path)
      else ((Cache.delete tar db).0, miss)
]

-- `false` is the error of a path at which no regular file stands.
unfoldable pub cache_store : Disk → String → String → ℕ → Database → Database × Bool
unfolding Cache.upsert
cache_store disk tar elf_path now_ms db = elim (disk elf_path) [
  | absent ↦ (db, false)
  | special ↦ (db, false)
  | regular size ↦ (
    (Cache.upsert
        (record {
          tar_blake3 = tar;
          elf_path = elf_path;
          built_at = now_ms;
          last_used_at = now_ms;
          size_bytes = size;
        })
        db).0,
    true,
  )
]

unfoldable pub remove_files : List BuildCacheEntry → Disk → Disk
remove_files [] disk = disk
remove_files (e ∷ es) disk =
    remove_files es (λ path. if str_eq path e.elf_path then absent else disk path)

-- `none` means that the fuel of the eviction ran out.
unfoldable pub evict_lru : ℕ → Disk → Database → Option (Database × Disk × List BuildCacheEntry)
unfolding evict_until_under remove_files
evict_lru max_bytes disk db = elim (evict_until_under max_bytes db) [
  | none ↦ none
  | some (after, evicted) ↦ some (after, remove_files evicted disk, evicted)
]
