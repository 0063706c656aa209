-- ===== src/Network/Access.antt =====
-- src/network/server.rs: which HTTP requests are answered, and change anything, without the credentials.
use kssql.Common.{
  ◌≡◌, ◌≢◌, refl, ◌⊎◌, inl, inr, true, false, Bool, Bool-cases, Option, none, some, bytes_eq,
  bytes_eq_iff, ap, List, ℕ, arith,
}
use kssql.Common.Str.{Text}
use kssql.Storage.Codec.{Codec}
use kssql.Storage.Pager.{Disk}
use kssql.Storage.Wal.Frame.{WalEntry}
use kssql.Network.Session.{credentials}
use kssql.Network.Handlers.{Response, App, check_auth}
use kssql.Network.Hotswap.{Web, Database, fetch, store_download, swap_if, hotswap_handler}
use kssql.Network.Router.{
  Request, dashboard, websocket, query, undo, redo, backup, memory_mode, memory_limit, memory_purge,
  hotswap, Site, serve,
}

-- A hot swap that is let in is answered with 200 or 400.
module _ (disk : Disk) (web : Web disk) (entries : Codec WalEntry) where
  abbrev IsAnswered : Response → Type 0
  IsAnswered response = (response.status ≡ 200) ⊎ (response.status ≡ 400)

  swap_if-IsAnswered :
      (out : Bool × web.Files) (db : Database disk web entries)
      → IsAnswered (swap_if disk web entries out db).0
  swap_if-IsAnswered (true, files) db = inl refl
  swap_if-IsAnswered (false, files) db = inr refl

  fetch-IsAnswered :
      (url : Option Text) (db : Database disk web entries)
      → IsAnswered (fetch disk web entries url db).0
  fetch-IsAnswered none db = inr refl
  fetch-IsAnswered (some url) db = go (web.download url)
    where
      go : (bytes : Option (List ℕ)) → IsAnswered (store_download disk web entries bytes db).0
      go none = inr refl
      go (some bytes) = swap_if-IsAnswered _ db

module _ (site : Site) where
  open site use {backend, disk, web, entries, dashboard_html, upgrade, database_of, set_same}

  -- The answer depends on the header, and without the credentials nothing changes.
  abbrev pub IsGuarded : Text → Text → Option Text → Request → App backend → Type 0
  IsGuarded user pass header request app =
      ((header ≡ some (credentials user pass))
        × (((serve site user pass header request app).0.status ≡ 200)
            ⊎ ((serve site user pass header request app).0.status ≡ 400)))
      ⊎ ((header ≢ some (credentials user pass))
          × ((serve site user pass header request app).0.status ≡ 401)
          × ((serve site user pass header request app).1 ≡ app))

  -- The two requests that no handler checks have a fixed answer, and change nothing.
  abbrev pub IsControlled : Text → Text → Option Text → Request → App backend → Type 0
  IsControlled user pass header dashboard app =
      serve site user pass header dashboard app
      ≡ (record { status = 200; body = dashboard_html }, app)
  IsControlled user pass header websocket app =
      serve site user pass header websocket app ≡ (upgrade, app)
  IsControlled user pass header request app = IsGuarded user pass header request app

  -- Both answers of a request that is checked.
  by_header :
      (user pass : Text) (header : Option Text) (request : Request) (app : App backend)
      → (check_auth header user pass ≡ true
          → ((serve site user pass header request app).0.status ≡ 200)
            ⊎ ((serve site user pass header request app).0.status ≡ 400))
      → (check_auth header user pass ≡ false
          → ((serve site user pass header request app).0.status ≡ 401)
            × ((serve site user pass header request app).1 ≡ app))
      → IsGuarded user pass header request app
  unfolding check_auth
  by_header user pass none request app granted denied =
      let (status, kept) = denied refl in inr ((λ h. absurd (cc h)), status, kept)
  by_header user pass (some h) request app granted denied =
      elim (Bool-cases (bytes_eq h (credentials user pass))) [
        | inl same ↦ inl (ap some ((bytes_eq_iff h (credentials user pass)).0 same), granted same)
        | inr other ↦
            let (status, kept) = denied other in
            inr (
              (λ e. absurd (ground (arith, e, other, bytes_eq_iff h (credentials user pass)))),
              status,
              kept,
            )
      ]

  -- `/` is answered with the page, and `/ws` with the upgrade, whatever the header, and neither changes
  -- anything. To any other request, if its header is just the credentials, the status is 200 or 400; if not, it
  -- is 401, and the engine, the memory tier, the broadcast and the database are as before.
  pub serve_lem :
      (user pass : Text) (header : Option Text) (request : Request) (app : App backend)
      → IsControlled user pass header request app
  unfolding serve
  serve_lem user pass header dashboard app = refl
  serve_lem user pass header websocket app = refl
  serve_lem user pass header (query body) app =
      by_header user pass header (query body) app (λ granted. ground arith)
        (λ denied. rw (serve, denied) (refl, refl))
  serve_lem user pass header undo app =
      by_header user pass header undo app (λ granted. rw (serve, granted) (inl refl))
        (λ denied. rw (serve, denied) (refl, refl))
  serve_lem user pass header redo app =
      by_header user pass header redo app (λ granted. rw (serve, granted) (inl refl))
        (λ denied. rw (serve, denied) (refl, refl))
  serve_lem user pass header backup app =
      by_header user pass header backup app (λ granted. rw (serve, granted) (inl refl))
        (λ denied. rw (serve, denied) (refl, refl))
  serve_lem user pass header (memory_mode body) app =
      by_header user pass header (memory_mode body) app (λ granted. ground arith)
        (λ denied. rw (serve, denied) (refl, refl))
  serve_lem user pass header (memory_limit body) app =
      by_header user pass header (memory_limit body) app (λ granted. ground arith)
        (λ denied. rw (serve, denied) (refl, refl))
  serve_lem user pass header memory_purge app =
      by_header user pass header memory_purge app (λ granted. rw (serve, granted) (inl refl))
        (λ denied. rw (serve, denied) (refl, refl))
  serve_lem user pass header (hotswap body) app =
      by_header user pass header (hotswap body) app
        (λ granted.
          rw (serve, hotswap_handler, granted)
            (fetch-IsAnswered disk web entries (web.url_of body) (database_of app)))
        (λ denied. rw (serve, hotswap_handler, denied) (refl, set_same app))
