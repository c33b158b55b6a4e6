-- ===== src/Exec/ReadLoop.antt =====
-- The `do ... while (status)` loop over `readEnvelope` that the three connections have.
use tkmcollector.Prelude.{Bool, true, false, List, [], ◌∷◌, if◌then◌else◌}
use tkmcollector.Run.{Run, ◌>>=◌, pure}

-- What `readEnvelope` says when it gives no message.
pub data ReadEnd : Type 0 where
  again error end_of_file : ReadEnd

abbrev pub keeps_source : ReadEnd → Bool
keeps_source again = true
keeps_source error = false
keeps_source end_of_file = false

module _ {E S A : Type 0} (accept : A → Bool) (handle : A → Run E S Bool) where
  -- The messages that are read until `readEnvelope` gives none; `false` takes the connection out of
  -- the event loop.
  unfoldable pub read_loop : List A → ReadEnd → Run E S Bool
  read_loop [] end = pure (keeps_source end)
  read_loop (x ∷ xs) end =
      let rest = read_loop xs end in
      if accept x then (do status ← handle x; if status then rest else pure false) else rest
