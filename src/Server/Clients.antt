-- ===== src/Server/Clients.antt =====
-- Which clients the server takes, and when it starts.
use tkmcollector.Prelude.{
  ℕ, Bool, true, ◌≡◌, ◌≤◌, ◌-◌, ◌&&◌, ◌||◌, not, some, List, [], ◌∷◌, ◌++◌, arith, if◌then◌else◌,
}
use tkmcollector.Outcome.{Outcome, Returns, ending, returns, raises}
use tkmcollector.Requests.{Client}
use tkmcollector.Bytes.{length}
use tkmcollector.Options.{Options}
use tkmcollector.Helpers.{Codec, Sent, buffer_size, head_size, send_control_descriptor}
use tkmcollector.Helpers.Descriptor.{IsCodec, IsReadBack, send_control_descriptor-IsReadBack}
use tkmcollector.Server.{ServerCall, UdsServer, on_connection, socket_path, start}

-- The server's callback on what was sent takes the client, and nothing else but the limit on its
-- reading; it stays in the event loop, and the server is as it was.
abbrev pub IsTaken : Codec → Client → UdsServer → List ℕ → Sent → Type 0
IsTaken k c s more (Sent.bytes xs) =
    Returns
      (λ (b, s', es).
        (b ≡ true)
        × (s' ≡ s)
        × (es ≡ ServerCall.set_receive_timeout c 3 ∷ ServerCall.add_client c ∷ []))
      (on_connection k (some c) (xs ++ more) s)
IsTaken k c s more _ = ⊥

IsReadBack-IsTaken :
    (k : Codec) (pid : ℕ) (c : Client) (s : UdsServer) (more : List ℕ) (x : Sent)
    → IsReadBack k pid more x
    → IsTaken k c s more x
unfolding on_connection
IsReadBack-IsTaken k pid c s more Sent.refused h = h
IsReadBack-IsTaken k pid c s more (Sent.bytes xs) h = ground (arith, h)
IsReadBack-IsTaken k pid c s more (Sent.over_read n) h = h

-- A client whose descriptor leaves the eight bytes of the head free in the buffer is taken by the
-- server, whatever it sends behind the descriptor: it gets three seconds for a read, is added to the
-- event loop, and is not closed.
pub send_control_descriptor-IsTaken :
    (k : Codec) (pid : ℕ) (c : Client) (s : UdsServer) (more : List ℕ)
    → IsCodec k
    → length (k.envelope pid) ≤ buffer_size - head_size
    → IsTaken k c s more (send_control_descriptor k pid)
send_control_descriptor-IsTaken k pid c s more law small =
    IsReadBack-IsTaken k pid c s more (send_control_descriptor k pid)
      (send_control_descriptor-IsReadBack k pid more law small)

module _ (env : ServerCall → Bool) (o : Options) (s : UdsServer) where
  abbrev cleared : Bool
  cleared =
      not (env (ServerCall.exists' (socket_path o))) || env (ServerCall.remove (socket_path o))

  abbrev pub opened : Bool
  opened = cleared && env (ServerCall.bind (socket_path o)) && env (ServerCall.listen 10)

  abbrev left_over : List ServerCall
  left_over =
      if env (ServerCall.exists' (socket_path o))
      then ServerCall.remove (socket_path o) ∷ []
      else []

  abbrev pub Started : Outcome (Unit {0} × UdsServer × List ServerCall) → Type 0
  Started = Returns λ (_, s', es).
      (s' ≡ record s { prepared = true })
      × (es
          ≡ ServerCall.exists' (socket_path o)
            ∷ (left_over
                ++ (ServerCall.bind (socket_path o)
                    ∷ ServerCall.chmod (socket_path o) 666
                    ∷ ServerCall.listen 10
                    ∷ [])))

  -- The start throws exactly if a socket file that is there cannot be removed, or the socket cannot be
  -- bound or cannot listen; where it returns, the file that was there is removed first, the new one is
  -- open to everybody, and the server lets events through.
  pub start_ends :
      (ending (start env o s) ≡ (if opened then returns else raises))
      × (if opened then Started (start env o s) else Unit {0})
  unfolding start
  start_ends = ground arith
