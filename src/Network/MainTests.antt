-- ===== src/Network/MainTests.antt =====
-- src/main.rs: a start on a database with one table, and lines without the password.
use kssql.Common.{
  ℕ, nat_equality, ◌≡◌, ◌≢◌, ◌==◌, ◌++◌, All, subst, refl, Option, none, some, inl, false, List, [],
  ◌∷◌, Bytes,
}
use kssql.Common.Dict
use kssql.Common.Result.{Result, ok}
use kssql.Storage.MemoryTier.{get, new_tier}
use kssql.Storage.Btree.Cached.{BPlusTree}
use kssql.Engine.Start.{new_engine}
use kssql.Engine.StartTests.{users_world, versions, opened}
use kssql.Engine.Tests.{rows, empty_store}
use kssql.Network.Arguments.{Settings, wal_path}
use kssql.Network.Session.{credentials}
use kssql.Network.Login.{Contains}
use kssql.Common.Str.{Text}
use kssql.Network.Connections.{
  Client, Event, accept, line_from, web_query, Running, start_listening, run_events,
}
use kssql.Network.DatabaseTests.{no_floats, no_host}
use kssql.Network.Main.{Args, listening, service, main, main-run_events}

-- w:80, with the user "u" and the password "p"
abbrev args : Args
args = record {
  port = (119 ∷ 58 ∷ 56 ∷ 48 ∷ []) ∷ [];
  db = 100 ∷ [];
  user = 117 ∷ [];
  password = 112 ∷ [];
}

abbrev settings : Settings
settings = record { web_port = 80; use_ssl = false; main_port = 5432 }

abbrev open_btree : Bytes → Bytes → Result (BPlusTree empty_store)
open_btree db log = ok opened

abbrev served :
    Running (service (λ e. []) no_host (λ sql. inl []) no_floats users_world rows versions)
served =
    start_listening (service (λ e. []) no_host (λ sql. inl []) no_floats users_world rows versions)
      (new_engine users_world rows versions opened).1

starts :
    main (λ e. []) no_host (λ sql. inl []) no_floats users_world rows versions open_btree args
    ≡ listening settings served
unfolding main get new_tier
starts = refl

-- "AUTH q" with a newline
abbrev guess : Text
guess = 65 ∷ 85 ∷ 84 ∷ 72 ∷ 32 ∷ 113 ∷ 10 ∷ []

-- A client sends the guess, and a request comes without a header.
abbrev knocks : List Event
knocks = accept ∷ line_from 0 guess ∷ web_query none (88 ∷ []) ∷ []

All-suffix : (P : ℕ → Type 0) (before after : Text) → All P (before ++ after) → All P after
All-suffix P [] after h = h
All-suffix P (c ∷ before) after h = All-suffix P before after h.1

no_colon : All (λ c. (c == 58) ≡ false) guess
no_colon = (refl, (refl, (refl, (refl, (refl, (refl, (refl, tt)))))))

-- There is no colon in the guess.
absent : ¬ Contains (credentials (117 ∷ []) (112 ∷ [])) guess
absent (before, after, e) =
    let rest =
      All-suffix (λ c. (c == 58) ≡ false) before (117 ∷ 58 ∷ 112 ∷ after)
        (subst (All (λ c. (c == 58) ≡ false)) e no_colon) in
    absurd (cc rest.1.0)

no_header : ◌≢◌ {A = Option Text} none (some (credentials (117 ∷ []) (112 ∷ [])))
no_header e = absurd (cc e)

main-run_events_example :
    (btree : BPlusTree empty_store) × (open_btree args.db (wal_path args.db) ≡ ok btree)
    × ((run_events
          (service (λ e. []) no_host (λ sql. inl []) no_floats users_world rows versions)
          args.user
          args.password
          knocks
          served).engine
        ≡ (new_engine users_world rows versions btree).1)
    × ((run_events
          (service (λ e. []) no_host (λ sql. inl []) no_floats users_world rows versions)
          args.user
          args.password
          knocks
          served).broadcast
        ≡ [])
    × ((n : ℕ) (client : Client)
        → Dict.get
            (run_events
              (service (λ e. []) no_host (λ sql. inl []) no_floats users_world rows versions)
              args.user
              args.password
              knocks
              served).clients
            n
          ≡ some client
        → client.authenticated ≡ false)
main-run_events_example =
    main-run_events (λ e. []) no_host (λ sql. inl []) no_floats users_world rows versions open_btree
      args settings served knocks starts (tt, (absent, (no_header, tt)))
