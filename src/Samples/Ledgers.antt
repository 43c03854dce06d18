-- ===== src/Samples/Ledgers.antt =====
-- The theorems on the ledger, tried on one event.
use nanihold_os.Prelude.{◌+◌, ◌<◌, ◌≤◌, ◌≡◌, ◌↔◌, refl, List, arith, In, length}
use nanihold_os.Result.{ok}
use nanihold_os.Models.Event.{StoredEvent, AppendResult, appended, duplicate}
use nanihold_os.Models.Payload.{Payload}
use nanihold_os.Ledger.{Ledger, append, new_ledger, page, store, screen, stream_of}
use nanihold_os.Dict.{get, put}
use nanihold_os.Ledger.Invariant.{WellFormed, append-WellFormed, new_ledger-WellFormed}
use nanihold_os.Ledger.Idempotence.{append_again}
use nanihold_os.Ledger.Paging.{page_lem}
use nanihold_os.Samples.{sample_dump, sample_event}

abbrev fresh : Ledger Payload
fresh = new_ledger "space:home"

abbrev first : Ledger Payload
first = (append sample_dump sample_event 0 fresh).1

first-WellFormed : WellFormed first
first-WellFormed =
    append-WellFormed sample_dump sample_event 0 fresh (new_ledger-WellFormed "space:home")

append-WellFormed_example : WellFormed first
append-WellFormed_example =
    append-WellFormed sample_dump sample_event 0 fresh (new_ledger-WellFormed "space:home")

abbrev first_answer : AppendResult
first_answer = record { outcome = appended; cursor = 1; stream_version = 1 }

first_accepted : (append sample_dump sample_event 0 fresh).0 ≡ ok first_answer
unfolding append store screen stream_of get put
first_accepted = refl

append_again_example :
    append sample_dump sample_event 5 first
    ≡ (ok (record first_answer { outcome = duplicate }), first)
append_again_example = append_again sample_dump sample_event 0 5 fresh first_accepted

page_lem_example :
    (es : List (StoredEvent Payload)) × (page 0 3 first ≡ ok es)
    × (length es ≤ 3)
    × ((e : StoredEvent Payload)
        → In e es ↔ (In e first.events × (0 < e.cursor) × (e.cursor ≤ 0 + 3)))
page_lem_example = page_lem 0 3 first first-WellFormed (omega arith)
