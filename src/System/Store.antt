-- ===== src/System/Store.antt =====
-- The two databases that a collector can run on (source/SQLiteDatabase.cpp, source/PQDatabase.cpp).
use tkmcollector.Prelude.{ℕ}
use tkmcollector.SafeList.{SafeList}
use tkmcollector.Messages.Payload.{UnpackData}
use tkmcollector.MonitorDevice.DataSource.{DataSource}
use tkmcollector.Options.{Options}
use tkmcollector.Query.Schema.{Backend}
use tkmcollector.Postgres.{Pqxx}
use tkmcollector.Postgres.Handler as Postgres
use tkmcollector.Sqlite.{Engine}
use tkmcollector.Sqlite.Handler as Sqlite
use tkmcollector.System.{DatabaseHandler}

pub data Store : Type 1 where
  sqlite : Engine → Store
  postgres : Pqxx → Options → Store

abbrev pub Db : Store → Type 0
Db (Store.sqlite e) = e.Db
Db (Store.postgres p o) = p.Connection

abbrev pub backend : Store → Backend
backend (Store.sqlite e) = Backend.sqlite3
backend (Store.postgres p o) = Backend.postgresql

abbrev pub handler :
    (D : SafeList DataSource) (S : SafeList ℕ) (unpack : UnpackData) (x : Store)
    → DatabaseHandler (Db x) D.Carrier S.Carrier
handler D S unpack (Store.sqlite e) = Sqlite.request_handler e D S unpack
handler D S unpack (Store.postgres p o) = Postgres.request_handler p o D S unpack
