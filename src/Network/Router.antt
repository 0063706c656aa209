-- ===== src/Network/Router.antt =====
-- src/network/server.rs: the routes of `Server::run`, each with its handler.
use kssql.Common.{◌≡◌, Option, Bytes, bytes_equality, nat_equality}
use kssql.Common.Str.{Text}
use kssql.Storage.Codec.{Codec}
use kssql.Storage.Pager.{Disk}
use kssql.Storage.Wal.Frame.{WalEntry}
use kssql.Network.Handlers.{
  Backend, App, Response, check_auth, query_handler, undo_handler, redo_handler, backup_handler,
  memory_mode_handler, memory_limit_handler, memory_purge_handler,
}
use kssql.Network.Hotswap.{Web, Database, hotswap_handler}

pub data Request : Type 0 where
  dashboard websocket : Request
  query : Text → Request
  undo redo backup : Request
  memory_mode memory_limit : Text → Request
  memory_purge : Request
  hotswap : Text → Request

-- What the routes work on: the backend, the disk and the web, the dashboard's page, axum's answer to an
-- upgrade to a websocket, and the parts of the state that a hot swap changes, as the engine has them.
pub record Site : Type 1 where
  pub backend : Backend
  pub disk : Disk
  pub web : Web disk
  pub entries : Codec WalEntry
  pub dashboard_html : Bytes
  pub upgrade : Response
  pub database_of : App backend → Database disk web entries
  pub with_database : Database disk web entries → App backend → App backend
  -- setting the parts as they are changes nothing
  pub set_same : (app : App backend) → with_database (database_of app) app ≡ app

module _ (site : Site) where
  open site use {backend, disk, web, entries, dashboard_html, upgrade, database_of, with_database}

  -- The handlers of `/` and `/ws` read no header.
  unfoldable pub serve : Text → Text → Option Text → Request → App backend → Response × App backend
  unfolding check_auth query_handler undo_handler redo_handler backup_handler memory_mode_handler
      memory_limit_handler memory_purge_handler hotswap_handler
  serve user pass header dashboard app = (record { status = 200; body = dashboard_html }, app)
  serve user pass header websocket app = (upgrade, app)
  serve user pass header (query body) app =
      query_handler backend (check_auth header user pass) body app
  serve user pass header undo app = undo_handler backend (check_auth header user pass) app
  serve user pass header redo app = redo_handler backend (check_auth header user pass) app
  serve user pass header backup app = backup_handler backend (check_auth header user pass) app
  serve user pass header (memory_mode body) app =
      memory_mode_handler backend (check_auth header user pass) body app
  serve user pass header (memory_limit body) app =
      memory_limit_handler backend (check_auth header user pass) body app
  serve user pass header memory_purge app =
      memory_purge_handler backend (check_auth header user pass) app
  serve user pass header (hotswap body) app =
      let (response, database) =
        hotswap_handler disk web entries (check_auth header user pass) body (database_of app) in
      (response, with_database database app)
