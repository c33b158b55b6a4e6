-- ===== src/Database/Answers.antt =====
-- What a client hears of a request that a database handles (source/SQLiteDatabase.cpp,
-- source/PQDatabase.cpp).
use tkmcollector.Prelude.{Bool, ◌≡◌, refl, some, List}
use tkmcollector.Outcome.{Ending, Outcome, Returns, ending, returns, raises, crashes}
use tkmcollector.Defaults.Args.{Args}
use tkmcollector.Requests.{BulkData, Client, DatabaseAction, Request}
use tkmcollector.Requests.Reply.{AreReply}
use tkmcollector.Exec.{Effect}
use tkmcollector.Exec.Trace.{dispatcher_requests}
use tkmcollector.Database.Requests.{IsClientRequest, expected}

-- Where nothing hinders it, the run returns with one reply; else it ends like what hinders it.
abbrev pub AreAnswered :
    {S : Type 0} → Request DatabaseAction → Ending → Outcome (Bool × S × List Effect) → Type 0
AreAnswered rq returns o = Returns (λ (_, _, es). AreReply rq (dispatcher_requests es)) o
AreAnswered rq raises o = ending o ≡ raises
AreAnswered rq crashes o = ending o ≡ crashes

pub AreAnswered-of_ending :
    {S : Type 0} (rq : Request DatabaseAction) (e : Ending) (o : Outcome (Bool × S × List Effect))
    → (e ≡ returns → Returns (λ (_, _, es). AreReply rq (dispatcher_requests es)) o)
    → ending o ≡ e
    → AreAnswered rq e o
AreAnswered-of_ending rq returns o h k = h refl
AreAnswered-of_ending rq raises o h k = k
AreAnswered-of_ending rq crashes o h k = k

-- A client's request with the data that it needs is one that its handler expects.
pub client_expected :
    (a : DatabaseAction) (b : BulkData) (c : Client) (args : Args)
    → IsClientRequest a b
    → expected a (some c) b args ≡ returns
client_expected DatabaseAction.init_database b c args h = refl
client_expected DatabaseAction.get_devices b c args h = refl
client_expected DatabaseAction.add_device (BulkData.device_data d) c args h = refl
client_expected DatabaseAction.remove_device (BulkData.device_data d) c args h = refl
client_expected DatabaseAction.get_sessions (BulkData.device_data d) c args h = refl
client_expected DatabaseAction.rem_session (BulkData.session_data x) c args h = refl
client_expected _ _ c args h = elim h [ ]
