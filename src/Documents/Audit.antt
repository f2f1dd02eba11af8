-- ===== src/Documents/Audit.antt =====
-- The audit statement of the methods: INSERT INTO document_audit_events … SELECT … FROM
-- documents WHERE public_id=$1.
use file_storage_bucket.Common.{String, Option, none, Bool, ◌&&◌, ◌==◌}
use file_storage_bucket.Documents.Types.{Scope, Service}
use file_storage_bucket.Documents.Tables.{Row, append_event}
use file_storage_bucket.Documents.Exec.{Action, statement}

module _ (s : Service) where
  record_where : (Row → Bool) → String → String → Scope → String → Option String → Action (Unit {0})
  record_where p id action sc correlation reason = statement s.db λ now. append_event p (record {
    document = id;
    action = action;
    actor_subject = sc.subject;
    actor_application = sc.application_id;
    correlation_id = correlation;
    reason = reason;
    occurred_at = now;
  })

  -- with the correlation id of the scope
  unfoldable pub record_event : Scope → String → String → Action (Unit {0})
  unfolding record_where
  record_event sc id action =
      record_where (λ r. r.public_id == id) id action sc sc.correlation_id none

  -- with the reference of the bank-account case
  unfoldable pub record_bank_event : Scope → String → String → Action (Unit {0})
  unfolding record_where
  record_bank_event sc id action =
      record_where (λ r. r.public_id == id) id action sc sc.bank_account_reference none

  unfoldable pub record_reasoned_event : Scope → String → String → String → Action (Unit {0})
  unfolding record_where
  record_reasoned_event sc id action reason =
      record_where (λ r. r.public_id == id) id action sc sc.correlation_id (Option.some reason)

  -- OpenEvidence: AND tenant_id=$5 AND environment=$6
  unfoldable pub record_scoped_event : Scope → String → String → Action (Unit {0})
  unfolding record_where
  record_scoped_event sc id action =
      record_where
        (λ r. r.public_id == id && r.tenant_id == sc.tenant_id && r.environment == sc.environment)
        id action sc sc.correlation_id none
