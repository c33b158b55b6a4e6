-- ===== src/Exec/Trace.antt =====
-- The requests among the effects of a run, by the queue that they went to.
use tkmcollector.Prelude.{String, ◌≡◌, refl, ap, List, [], ◌∷◌, ◌++◌}
use tkmcollector.Requests.{Request, DispatcherAction, DatabaseAction, DeviceAction}
use tkmcollector.Exec.{Effect}

abbrev pub dispatcher_requests : List Effect → List (Request DispatcherAction)
dispatcher_requests [] = []
dispatcher_requests (Effect.push_dispatcher rq ∷ es) = rq ∷ dispatcher_requests es
dispatcher_requests (e ∷ es) = dispatcher_requests es

abbrev pub database_requests : List Effect → List (Request DatabaseAction)
database_requests [] = []
database_requests (Effect.push_database rq ∷ es) = rq ∷ database_requests es
database_requests (e ∷ es) = database_requests es

abbrev pub device_requests : List Effect → List (Request DeviceAction)
device_requests [] = []
device_requests (Effect.push_device hash rq ∷ es) = rq ∷ device_requests es
device_requests (e ∷ es) = device_requests es

pub dispatcher_requests-append :
    (es fs : List Effect)
    → dispatcher_requests (es ++ fs) ≡ dispatcher_requests es ++ dispatcher_requests fs
dispatcher_requests-append [] fs = refl
dispatcher_requests-append (Effect.push_dispatcher rq ∷ es) fs =
    ap (◌∷◌ rq) (dispatcher_requests-append es fs)
dispatcher_requests-append (e ∷ es) fs = dispatcher_requests-append es fs

pub database_requests-append :
    (es fs : List Effect)
    → database_requests (es ++ fs) ≡ database_requests es ++ database_requests fs
database_requests-append [] fs = refl
database_requests-append (Effect.push_database rq ∷ es) fs =
    ap (◌∷◌ rq) (database_requests-append es fs)
database_requests-append (e ∷ es) fs = database_requests-append es fs

-- The texts that the database was asked to run.
abbrev pub queries : List Effect → List String
queries [] = []
queries (Effect.query sql ∷ es) = sql ∷ queries es
queries (e ∷ es) = queries es
