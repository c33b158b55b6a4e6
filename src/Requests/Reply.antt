-- ===== src/Requests/Reply.antt =====
-- What counts as an answer to a client's request.
use tkmcollector.Prelude.{true, ◌≡◌, List, [], ◌∷◌}
use tkmcollector.Defaults.{Arg}
use tkmcollector.Defaults.Args.{find, count}
use tkmcollector.Requests.{DispatcherAction, Request}

-- A SendStatus request to the client of `rq`, with its id and with a status.
pub record IsReply {A : Type 0} (rq : Request A) (r : Request DispatcherAction) : Type 0 where
  pub same_client : r.client ≡ rq.client
  pub is_status : r.action ≡ DispatcherAction.send_status
  pub same_id : find Arg.request_id r.args ≡ find Arg.request_id rq.args
  pub has_status : count Arg.status r.args ≡ true

-- One request went to the dispatcher, and it is a reply.
abbrev pub AreReply : {A : Type 0} → Request A → List (Request DispatcherAction) → Type 0
AreReply rq [] = ⊥
AreReply rq (r ∷ []) = IsReply rq r
AreReply rq (r ∷ s ∷ rs) = ⊥
