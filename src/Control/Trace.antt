-- ===== src/Control/Trace.antt =====
-- What the tool did, by the kind of its calls.
use tkmcollector.Prelude.{String, List, [], ◌∷◌}
use tkmcollector.ControlClient.{Incoming}
use tkmcollector.Control.{Call, Packed, Request}

abbrev pub pushed : List Call → List Request
pushed [] = []
pushed (Call.push r ∷ cs) = r ∷ pushed cs
pushed (c ∷ cs) = pushed cs

-- The envelopes as the collector reads them.
abbrev pub sent : List Call → List (Incoming Packed)
sent [] = []
sent (Call.send x ∷ cs) = record { origin = x.origin; request = x.request } ∷ sent cs
sent (c ∷ cs) = sent cs

abbrev pub printed : List Call → List String
printed [] = []
printed (Call.print t ∷ cs) = t ∷ printed cs
printed (c ∷ cs) = printed cs
