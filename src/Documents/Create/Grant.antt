-- ===== src/Documents/Create/Grant.antt =====
-- Service.Create: the grant under which evidence of a protected purpose is created.
use file_storage_bucket.Common.{
  String, Bool, true, false, ◌≡◌, ◌≢◌, arith, Bool-cases, inl, inr, ◌||◌,
}
use file_storage_bucket.Text.{to_upper}
use file_storage_bucket.Documents.Types.{Scope, CreateInput, Service, err, evidence_scope}
use file_storage_bucket.Documents.Exec.{World, ◌>>=◌}
use file_storage_bucket.Documents.Access.{valid_bank_account_scope}
use file_storage_bucket.Documents.Create.{lacks_bank_grant, lacks_reference, lacks_grant, create}

-- the scope names the source record of the evidence
pub record IsPermitted (s : Service) (sc : Scope) (input : CreateInput) : Type 0 where
  pub bank :
      input.purpose ≡ "bank_account_verification"
      → (valid_bank_account_scope sc ≡ true)
        × (sc.bank_account_reference ≡ input.source_reference)
        × (sc.bank_account_owner_type ≡ to_upper s.platform.case_tables input.owner_type)
        × (sc.bank_account_owner_id ≡ input.owner_id)
  pub payment :
      input.purpose ≡ "manual_bank_payment"
      → (sc.payment_reference ≢ "") × (sc.payment_reference ≡ input.source_reference)
  pub statement :
      input.purpose ≡ "manual_bank_statement"
      → (sc.statement_reference ≢ "") × (sc.statement_reference ≡ input.source_reference)

or_false : (a b : Bool) → (a || b) ≡ false → (a ≡ false) × (b ≡ false)
or_false a b h = ground arith

has_bank_grant :
    (s : Service) (sc : Scope) (input : CreateInput)
    → lacks_bank_grant s sc input ≡ false
    → input.purpose ≡ "bank_account_verification"
    → (valid_bank_account_scope sc ≡ true)
      × (sc.bank_account_reference ≡ input.source_reference)
      × (sc.bank_account_owner_type ≡ to_upper s.platform.case_tables input.owner_type)
      × (sc.bank_account_owner_id ≡ input.owner_id)
unfolding lacks_bank_grant
has_bank_grant s sc input h e = ground arith

has_reference :
    (purpose reference : String) (input : CreateInput)
    → lacks_reference purpose reference input ≡ false
    → input.purpose ≡ purpose
    → (reference ≢ "") × (reference ≡ input.source_reference)
unfolding lacks_reference
has_reference purpose reference input h e = ground arith

pub lacks_grant-IsPermitted :
    (s : Service) (sc : Scope) (input : CreateInput)
    → lacks_grant s sc input ≡ false
    → IsPermitted s sc input
unfolding lacks_grant
lacks_grant-IsPermitted s sc input h =
    let payment = lacks_reference "manual_bank_payment" sc.payment_reference input in
    let statement = lacks_reference "manual_bank_statement" sc.statement_reference input in
    let (no_bank, rest) = or_false (lacks_bank_grant s sc input) (payment || statement) h in
    let (no_payment, no_statement) = or_false payment statement rest in
    record {
      bank = has_bank_grant s sc input no_bank;
      payment = has_reference "manual_bank_payment" sc.payment_reference input no_payment;
      statement = has_reference "manual_bank_statement" sc.statement_reference input no_statement;
    }

-- Evidence of a protected purpose without the grant for its own source record is refused with
-- ErrEvidenceScope, before anything is read, written or called: the world is as it was.
pub create-refused :
    (s : Service) (sc : Scope) (input : CreateInput) (entropy : _) (w : World)
    → ¬ (IsPermitted s sc input)
    → create s sc input entropy w ≡ (err evidence_scope, w)
unfolding create ◌>>=◌
create-refused s sc input entropy w n = elim (Bool-cases (lacks_grant s sc input)) [
  | inl lacks ↦ ground arith
  | inr has ↦ absurd (n (lacks_grant-IsPermitted s sc input has))
]
