-- ===== src/Projection/Recovery.antt =====
-- vsm/projection.py: `rebuild` on a new Kernel over the ledger that another one has left, which is
-- how a restarted process gets its state back.
use nanihold_os.Prelude.{ℕ, ◌<◌, String, ◌≡◌, refl, sym, ap, ◌∙◌, List, [], length}
use nanihold_os.Result.{ok, Ensures, Ensures-ok, Ensures-raise_if}
use nanihold_os.Dict.{get-empty, empty}
use nanihold_os.Ids.{Platform}
use nanihold_os.Models.Node.{DataSpace}
use nanihold_os.Models.Activation.{CurrentWorkGraphSnapshot}
use nanihold_os.Models.Event.{EventEnvelope, StoredEvent}
use nanihold_os.Models.Payload.{Payload}
use nanihold_os.Ledger.{stream_of, new_ledger}
use nanihold_os.Ledger.Invariant.{new_ledger-WellFormed}
use nanihold_os.Ledger.Place.{TellsPlace}
use nanihold_os.Activation.{new_activation}
use nanihold_os.Kernel.{Kernel, new_kernel, or_zero, empty_registry}
use nanihold_os.Kernel.Filing.{empty-IsFiled}
use nanihold_os.Projection.{apply_page, rebuild}
use nanihold_os.Projection.Tracking.{Tracked}
use nanihold_os.Projection.History.{History, History-Tracked}
use nanihold_os.Activation.Queries.{HistoryToolService}
use nanihold_os.Projection.Rebuild.{rebuild-apply_page}

new_stream : (space s : String) → 0 ≡ length (stream_of (new_ledger {P = Payload} space) s)
unfolding stream_of
new_stream space s = rw (get-empty {V = List (StoredEvent Payload)} s) refl

-- A Kernel without an event, whose replay is itself.
record IsStart (start : Kernel) : Type 0 where
  pub tracked : Tracked start start
  pub no_events : start.ledger.events ≡ []

abbrev fresh : (String → String) → DataSpace → Kernel
fresh after_colon space = record {
  data_space = space;
  ledger = new_ledger space.data_space_id;
  activation = new_activation after_colon space.data_space_id;
  registry = empty_registry;
  versions = empty;
}

fresh-IsStart :
    (after_colon : String → String) (space : DataSpace) → IsStart (fresh after_colon space)
unfolding apply_page
fresh-IsStart after_colon space = record {
  tracked = record {
    in_step = record {
      ledger = new_ledger-WellFormed space.data_space_id;
      versions = λ s other. ap or_zero (get-empty {V = ℕ} s) ∙ new_stream space.data_space_id s;
      activation = new_stream space.data_space_id _;
    };
    filed = empty-IsFiled;
    space = refl;
    own_stream = ap or_zero (get-empty {V = ℕ} _);
    idle = λ p. record { attempt = refl; started = refl; pending = refl };
    replayed = λ l. refl;
  };
  no_events = refl;
}

new_kernel-IsStart :
    (after_colon : String → String) (space : DataSpace) (audit control : String)
    → Ensures IsStart (new_kernel after_colon space audit control)
new_kernel-IsStart after_colon space audit control =
    let leaf = fresh-IsStart after_colon space in
    search (Ensures-ok, Ensures-raise_if, leaf) depth 8

-- Take a new Kernel, and one that commands, promotions of notifications, imports of Work Graphs,
-- methods of the activation and queries of the history lead to from it, with the refused ones among
-- them; the text of an event tells its place, and the Kernel never records in the stream of the activation. A new projection
-- over the ledger that is left, whatever its page size, rebuilds that very Kernel: its registry, its
-- activation and its versions, at the cursor of the last event.
pub rebuild-restores :
    (dump : EventEnvelope Payload → String) (platform : Platform) (tells : TellsPlace dump)
    (decimal : ℕ → String) (digest : CurrentWorkGraphSnapshot → String) {J : Type 0}
    (tools : HistoryToolService J) (encode : J → List ℕ) (hash : List ℕ → String)
    (after_colon : String → String) (space : DataSpace) (audit control : String) (start k : Kernel)
    (page_size : ℕ)
    → new_kernel after_colon space audit control ≡ ok start
    → History dump platform tells decimal digest tools encode hash start k
    → 0 < page_size
    → rebuild page_size
        (record { kernel = record start { ledger = k.ledger }; others = λ _. 0; cursor = 0 })
      ≡ ok (record { kernel = k; others = λ _. 0; cursor = length k.ledger.events })
rebuild-restores dump platform tells decimal digest tools encode hash after_colon space audit
      control start k page_size new past positive =
    let begun = (new_kernel-IsStart after_colon space audit control).at start new in
    let tracked =
      History-Tracked dump platform tells decimal digest tools encode hash start begun.tracked k
        past in
    rebuild-apply_page page_size _ positive
    ∙ ap
        (λ n.
          apply_page k.ledger.events
            (record { kernel = record start { ledger = k.ledger }; others = λ _. 0; cursor = n }))
        (sym (ap length begun.no_events))
    ∙ tracked.replayed k.ledger
