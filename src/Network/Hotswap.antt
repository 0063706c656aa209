-- ===== src/Network/Hotswap.antt =====
-- src/network/server.rs: `hotswap_handler`, which puts a downloaded file in the place of the database.
use kssql.Common.{
  ◌≡◌, ◌⊎◌, refl, Bool, true, false, Option, none, some, [], ◌∷◌, ◌++◌, Bytes, bytes_equality,
  if◌then◌else◌, arith, ap, ◌∙◌, Option-cases, inl, inr,
}
use kssql.Common.Dict
use kssql.Common.Str.{Text}
use kssql.Storage.Codec.{Codec}
use kssql.Storage.MemoryTier
use kssql.Storage.MemoryTier.{MemoryTier}
use kssql.Storage.MemoryTier.Lookup.{get_lem}
use kssql.Storage.Pager.{Disk, Pager, handle_reload}
use kssql.Storage.Wal.Frame.{WalEntry}
use kssql.Storage.Wal.Queue.{Wal, flush_pipeline}
use kssql.Network.Handlers.{Response, bare}

-- The field `url` of a JSON body, the download, and the files by their paths.
pub record Web (disk : Disk) : Type 1 where
  pub Files : Type 0
  pub url_of : Text → Option Text
  pub download : Text → Option Bytes
  pub write_file : Text → Bytes → Files → Bool × Files
  pub rename : Text → Text → Files → Files
  pub open_at : Text → Files → Option disk.File

-- ".tmp"
abbrev pub tmp_path : Text → Text
tmp_path db_path = db_path ++ 46 ∷ 116 ∷ 109 ∷ 112 ∷ []

module _ (disk : Disk) (web : Web disk) (entries : Codec WalEntry) where
  open web use {Files, url_of, download, write_file, rename, open_at}

  pub record Database : Type 0 where
    pub db_path : Text
    pub files : Files
    pub pager : Pager disk
    pub wal : Wal
    pub memory_tier : MemoryTier

  -- The file is written: a flush, a sync (which only waits), the rename, and the reload. All results are
  -- ignored.
  abbrev pub swap : Database → Database
  swap db =
      let files = rename (tmp_path db.db_path) db.db_path db.files in
      record db {
        files = files;
        wal = flush_pipeline entries db.wal;
        pager = (handle_reload disk (open_at db.db_path files) db.pager).1;
      }

  abbrev pub swap_if : Bool × Files → Database → Response × Database
  swap_if (wrote, files) db =
      if wrote
      then (bare 200, swap (record db { files = files }))
      else (bare 400, record db { files = files })

  abbrev pub store_download : Option Bytes → Database → Response × Database
  store_download none db = (bare 400, db)
  store_download (some bytes) db = swap_if (write_file (tmp_path db.db_path) bytes db.files) db

  abbrev pub fetch : Option Text → Database → Response × Database
  fetch none db = (bare 400, db)
  fetch (some url) db = store_download (download url) db

  unfoldable pub hotswap_handler : Bool → Text → Database → Response × Database
  unfolding flush_pipeline handle_reload
  hotswap_handler allowed body db = if allowed then fetch (url_of body) db else (bare 401, db)

  -- What a swap leaves: the old rows in the memory tier, and the new file or the old one in the pager.
  record IsSwapped (db after : Database) : Type 0 where
    cached : after.memory_tier ≡ db.memory_tier
    reloaded :
        ((file : disk.File) × (open_at db.db_path after.files ≡ some file)
          × (after.pager ≡ record { file = file; file_length = disk.size file }))
        ⊎ ((open_at db.db_path after.files ≡ none) × (after.pager ≡ db.pager))

  swap-IsSwapped : (db : Database) → IsSwapped db (swap db)
  unfolding handle_reload
  swap-IsSwapped db =
      let files = rename (tmp_path db.db_path) db.db_path db.files in
      record {
        cached = refl;
        reloaded = elim (Option-cases (open_at db.db_path files)) [
          | inl failed ↦ rw failed (inr (refl, refl))
          | inr (file, opened) ↦ rw opened (inl (file, refl, refl))
        ];
      }

  swap_if-IsSwapped :
      (out : Bool × Files) (db : Database)
      → (swap_if out db).0.status ≡ 200
      → IsSwapped db (swap_if out db).1
  swap_if-IsSwapped (true, files) db done =
      let swapped = swap-IsSwapped (record db { files = files }) in
      record { cached = swapped.cached; reloaded = swapped.reloaded }
  swap_if-IsSwapped (false, files) db done = absurd (omega (arith, done))

  store_download-IsSwapped :
      (bytes : Option Bytes) (db : Database)
      → (store_download bytes db).0.status ≡ 200
      → IsSwapped db (store_download bytes db).1
  store_download-IsSwapped none db done = absurd (omega (arith, done))
  store_download-IsSwapped (some bytes) db done = swap_if-IsSwapped _ db done

  fetch-IsSwapped :
      (url : Option Text) (db : Database)
      → (fetch url db).0.status ≡ 200
      → IsSwapped db (fetch url db).1
  fetch-IsSwapped none db done = absurd (omega (arith, done))
  fetch-IsSwapped (some url) db done = store_download-IsSwapped (download url) db done

  hotswap_handler-IsSwapped :
      (allowed : Bool) (body : Text) (db : Database)
      → (hotswap_handler allowed body db).0.status ≡ 200
      → IsSwapped db (hotswap_handler allowed body db).1
  unfolding hotswap_handler
  hotswap_handler-IsSwapped true body db done = fetch-IsSwapped (url_of body) db done
  hotswap_handler-IsSwapped false body db done = absurd (omega (arith, done))

  -- A request that is answered with 200 leaves the memory tier as it was: a row that it held is still found
  -- with its old value, whatever the new file has. The pager has the file that is at the path, or, if that
  -- cannot be opened, still the old one.
  pub hotswap_handler_lem :
      (allowed : Bool) (body : Text) (db : Database) (key value : Bytes)
      → (hotswap_handler allowed body db).0.status ≡ 200
      → Dict.get db.memory_tier.cache key ≡ some value
      → ((MemoryTier.get key (hotswap_handler allowed body db).1.memory_tier).0 ≡ some value)
        × (((file : disk.File) × (open_at db.db_path (hotswap_handler allowed body db).1.files
                ≡ some file)
              × ((hotswap_handler allowed body db).1.pager
                  ≡ record { file = file; file_length = disk.size file }))
            ⊎ ((open_at db.db_path (hotswap_handler allowed body db).1.files ≡ none)
                × ((hotswap_handler allowed body db).1.pager ≡ db.pager)))
  hotswap_handler_lem allowed body db key value done held =
      let swapped = hotswap_handler-IsSwapped allowed body db done in
      (
        ap (λ t. (MemoryTier.get key t).0) swapped.cached ∙ (get_lem key db.memory_tier).0 ∙ held,
        swapped.reloaded,
      )
