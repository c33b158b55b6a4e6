-- ===== src/System/Answers/Backends.antt =====
-- The answers that a collector owes, with either database (source/SQLiteDatabase.cpp,
-- source/PQDatabase.cpp).
use tkmcollector.Prelude.{ℕ, ◌+◌, ◌≡◌}
use tkmcollector.SafeList.{SafeList}
use tkmcollector.Messages.Payload.{UnpackData}
use tkmcollector.Requests.{Client}
use tkmcollector.ControlClient
use tkmcollector.MonitorConnection
use tkmcollector.MonitorDevice.DataSource.{DataSource}
use tkmcollector.System.{System, IsLaunched, Reach}
use tkmcollector.System.Store.{Store, Db, backend, handler}
use tkmcollector.System.Measure.{pending, sum}
use tkmcollector.System.Answers.{answered, asked, owes}
use tkmcollector.System.Answers.Postgres.{postgres-Settles}
use tkmcollector.System.Answers.Balance.{IsHonest, Reach-asked}
use tkmcollector.System.Answers.Sqlite.{sqlite-Settles}

module _ (D : SafeList DataSource) (S : SafeList ℕ) (unpack : UnpackData) where
  handler-IsHonest : (x : Store) → IsHonest (handler D S unpack x)
  handler-IsHonest (Store.sqlite e) c env now rq s = sqlite-Settles e D S unpack c env now rq s
  handler-IsHonest (Store.postgres p o) c env now rq s =
      postgres-Settles p o D S unpack c env now rq s

  -- Over either database, in every state that the collector reaches after its set-up, by any
  -- interleaving of its queues' handlers with commands, monitors' messages, timers and lost
  -- connections: the commands of a client, QuitCollector apart, are as many as the statuses that were
  -- sent to it and the answers to it that still wait in the queues, together. So no more is answered
  -- than was asked, and with empty queues as much.
  pub Reach-answered :
      (x : Store) {P Q : Type 0} (commands : ControlClient.Unpack P)
      (messages : MonitorConnection.Unpack Q) (pid : ℕ) (client : Client)
      {s t : System (Db x) D.Carrier S.Carrier}
      → IsLaunched (backend x) s
      → Reach D S (handler D S unpack x) commands messages pid s t
      → asked client t ≡ pending (owes client) t + sum (answered client) t.history
  Reach-answered x commands messages pid client =
      Reach-asked D S (handler D S unpack x) (handler-IsHonest x) client commands messages pid
