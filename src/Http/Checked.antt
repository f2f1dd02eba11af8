-- ===== src/Http/Checked.antt =====
-- The evidence route: what a reply with status 200 says.
use file_storage_bucket.Common.{
  ℕ, String, true, false, ◌||◌, ltb, len, Option, none, some, ◌≡◌, refl, inl, inr, arith, ◌==◌,
  Bool-cases,
}
use file_storage_bucket.Text.{trim_space}
use file_storage_bucket.Documents.Types.{
  Scope, Document, Result, ok, err, Service, conflict, not_found, evidence_scope, failure,
}
use file_storage_bucket.Documents.Tables.{or_empty}
use file_storage_bucket.Documents.Exec.{World}
use file_storage_bucket.Documents.Exec.Inversion.{guard_then}
use file_storage_bucket.Documents.Evidence.{evidence, resource_evidence, verify_evidence}
use file_storage_bucket.Documents.Evidence.Verified.{IsVerified, verify_evidence-IsVerified}
use file_storage_bucket.Documents.Lifecycle.{IsConsistent}
use file_storage_bucket.Auth.{Principal, Caller, has_scope, scope_of}
use file_storage_bucket.Http.{
  EvidenceRequest, Payload, verified, written, handle, respond, lacks_explicit_scope, verify_for,
  evidence_handler, evidence_verification, serve_principal, serve_route, required_scope,
}

module _ {A : Type 0} where
  pub respond-eq-written :
      (status status' : ℕ) (f : A → Payload) (r : Result A) (w w' : World) (x : Payload)
      → respond status f (r, w) ≡ (written status' x, w')
      → (a : A) × (r ≡ ok a) × (x ≡ f a) × (w' ≡ w)
  unfolding respond handle
  respond-eq-written status status' f (ok a) w w' x h = (a, refl, cc, cc)
  respond-eq-written status status' f (err not_found) w w' x h = cc
  respond-eq-written status status' f (err conflict) w w' x h = cc
  respond-eq-written status status' f (err evidence_scope) w w' x h = cc
  respond-eq-written status status' f (err failure) w w' x h = cc

module _ (s : Service) (environment : String) (r : Caller) where
  verify_for-eq-ok :
      (sc : Scope) (id : String) (b : EvidenceRequest) (o : Option String) (w w' : World)
      (d : Document)
      → b.resource_reference ≡ o
      → verify_for s environment r sc id b w ≡ (ok d, w')
      → verify_evidence s sc id b.party_id b.sha256 (or_empty o) w ≡ (ok d, w')
  unfolding verify_for evidence resource_evidence
  verify_for-eq-ok sc id b none w w' d at h = ground arith
  verify_for-eq-ok sc id b (some reference) w w' d at h =
      let (_, rest) =
        guard_then (trim_space reference == "" || ltb 128 (len reference)) conflict
          (verify_evidence s sc id b.party_id b.sha256 reference) w w' d (ground arith) in
      rest

  evidence_handler-eq-written :
      (sc : Scope) (id : String) (b : EvidenceRequest) (status : ℕ) (x : Payload) (w w' : World)
      → evidence_handler s environment r sc id (some b) w ≡ (written status x, w')
      → (lacks_explicit_scope environment sc ≡ false)
        × ((d : Document) × (x ≡ verified d sc.tenant_id sc.environment b.resource_reference)
            × (verify_for s environment r sc id b w ≡ (ok d, w')))
  unfolding evidence_handler
  evidence_handler-eq-written sc id b status x w w' h =
      elim (Bool-cases (lacks_explicit_scope environment sc)) [
        | inl lacks ↦ absurd (ground arith)
        | inr has ↦
            let (d, checked, is, same) =
              respond-eq-written 200 status
                (λ d. verified d sc.tenant_id sc.environment b.resource_reference)
                (verify_for s environment r sc id b w).0 (verify_for s environment r sc id b w).1 w'
                x (ground arith) in
            (has, (d, is, cc))
      ]

  explicit_environment :
      (sc : Scope) → lacks_explicit_scope environment sc ≡ false → sc.environment ≡ environment
  unfolding lacks_explicit_scope
  explicit_environment sc h = ground arith

  -- A reply with a document on the evidence route is given only to a principal with the scope
  -- documents.evidence.verify in the server's own environment, and for a version that the check
  -- confirmed: of the party, with the digest, and of the resource where the request names one.
  pub serve_route-IsVerified :
      (p : Principal) (id : String) (b : EvidenceRequest) (status : ℕ) (x : Payload) (w w' : World)
      → IsConsistent w.tables
      → serve_route s environment r (some p) (evidence_verification id (some b)) w
        ≡ (written status x, w')
      → (has_scope p "documents.evidence.verify" ≡ true)
        × (p.environment ≡ environment)
        × ((d : Document) × (x ≡ verified d p.tenant_id p.environment b.resource_reference)
            × IsVerified
                (scope_of r p)
                id
                b.party_id
                b.sha256
                (or_empty b.resource_reference)
                w.tables
                w'.tables
                d)
  unfolding serve_route serve_principal required_scope scope_of
  serve_route-IsVerified p id b status x w w' c h =
      elim (Bool-cases (has_scope p "documents.evidence.verify")) [
        | inr lacks ↦ absurd (ground arith)
        | inl has ↦
            let (explicit, (d, is, checked)) =
              evidence_handler-eq-written (scope_of r p) id b status x w w' (ground arith) in
            (
              has,
              explicit_environment (scope_of r p) explicit,
              (
                d,
                is,
                verify_evidence-IsVerified s (scope_of r p) id b.party_id b.sha256
                    (or_empty b.resource_reference) w w' d c
                    (verify_for-eq-ok (scope_of r p) id b b.resource_reference w w' d refl checked),
              ),
            )
      ]
