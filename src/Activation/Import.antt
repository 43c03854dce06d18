-- ===== src/Activation/Import.antt =====
-- vsm/activation/service.py: `register_history_import` called twice.
use nanihold_os.Prelude.{ℕ, String, ◌≡◌, refl, Bool, true, false, not, some, arith, decides}
use nanihold_os.Result.{ok, Ensures, Ensures-ok, Ensures-raise_if, Ensures-if, Ensures-err}
use nanihold_os.Models.Event.{EventEnvelope}
use nanihold_os.Models.Payload.{Payload}
use nanihold_os.Models.Activation.{
  HistoryImportReceipt, HistoryImportReceipt-discrete, is_uncommissioned,
  totals_and_coverage_are_consistent,
}
use nanihold_os.Activation.{Activation, Caller, Move}
use nanihold_os.Activation.Commands.{
  Registration, already_imported, to_record, register_history_import,
}

decides_refl : {A : Type 0} (x : A) (d : Dec (x ≡ x)) → decides d ≡ true
decides_refl x (yes p) = refl
decides_refl x (no n) = absurd (n refl)

-- An activation that has imported the receipt.
abbrev Holds : HistoryImportReceipt → Activation → Type 0
Holds receipt b =
    (is_uncommissioned b.state ≡ false)
    × (b.import_receipt ≡ some receipt)
    × (totals_and_coverage_are_consistent receipt ≡ true)

again :
    (b : Activation) (receipt : HistoryImportReceipt) (conversation : String) (c : Caller)
    → Holds receipt b
    → register_history_import b receipt conversation c ≡ ok already_imported
unfolding register_history_import
again b receipt conversation c (state, import, valid) =
    rw (valid, state, import, decides_refl receipt (HistoryImportReceipt-discrete receipt receipt))
      refl

abbrev Records : Activation → HistoryImportReceipt → Registration → Type 0
Records a receipt already_imported = Unit
Records a receipt (to_record m) =
    (e : EventEnvelope Payload) (cursor version : ℕ)
    → Holds receipt (m.write e cursor (record a { version = version }))

affirmed : (b : Bool) → not b ≡ false → b ≡ true
affirmed b h = ground arith

register-Records :
    (a : Activation) (receipt : HistoryImportReceipt) (conversation : String) (c : Caller)
    → Ensures (Records a receipt) (register_history_import a receipt conversation c)
unfolding register_history_import
register-Records a receipt conversation c =
    search (Ensures-ok, Ensures-err, Ensures-raise_if, Ensures-if, affirmed, refl) depth 24

-- An import that was recorded and is repeated, with whatever Conversation, is accepted and records
-- nothing.
pub import_again :
    (a : Activation) (receipt : HistoryImportReceipt) (conversation conversation' : String)
    (c c' : Caller) (m : Move) (e : EventEnvelope Payload) (cursor version : ℕ)
    → register_history_import a receipt conversation c ≡ ok (to_record m)
    → register_history_import
        (m.write e cursor (record a { version = version }))
        receipt
        conversation'
        c'
      ≡ ok already_imported
import_again a receipt conversation conversation' c c' m e cursor version accepted =
    again _ receipt conversation' c'
      ((register-Records a receipt conversation c).at (to_record m) accepted e cursor version)
