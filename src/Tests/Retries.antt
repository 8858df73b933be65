-- ===== src/Tests/Retries.antt =====
-- Runs of the theorems about requests that are sent again.
use meshias.Base.{◌≡◌, ◌+◌, refl, [], ◌∷◌, arith}
use meshias.State.{MshData}
use meshias.Logic.Discovery.{find_entry}
use meshias.Logic.Retries.Expiry.{owned}
use meshias.Logic.Retries.{expirations, expirations-end}
use meshias.Logic.Retries.Search.{sent}
use meshias.Tests.{busy}

-- A request for 11, for which a packet waits, was sent once. What is read after the entry is freed is 10,
-- so it is the packet for 10 that is given up.
abbrev asking : MshData
asking = record busy { rreq_queue = owned 4 6 11 0 ∷ [] }

expirations-end_example :
    ((expirations 4 3 asking).rreq_queue ≡ [])
    × ((expirations 4 3 asking).packets_queue ≡ record { id = 8; dest = 11 } ∷ [])
    × (sent (expirations 4 3 asking).trace ≡ sent asking.trace + 2)
unfolding find_entry meshias.RreqFifo.remove_entry
expirations-end_example = expirations-end 4 6 11 0 asking refl (ground arith)
