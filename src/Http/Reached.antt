-- ===== src/Http/Reached.antt =====
-- The changes of the tables that the document routes make.
use file_storage_bucket.Common.{
  ℕ, String, Option, none, some, not, false, true, ◌≡◌, refl, sym, subst, ap, if◌then◌else◌,
  Bool-cases, inl, inr,
}
use file_storage_bucket.Documents.Types.{Scope, Result, ok, err, Service}
use file_storage_bucket.Documents.Evidence
use file_storage_bucket.Documents.Exec.{World}
use file_storage_bucket.Documents.Changes.{Changes, unchanged}
use file_storage_bucket.Documents.Changes.Runs.{Runs}
use file_storage_bucket.Documents.Changes.Methods.{
  Runs-create, Runs-complete, Runs-upload_content, Runs-record_scan, Runs-download, Runs-evidence,
  Runs-resource_evidence,
}
use file_storage_bucket.Auth.{Principal, Caller, has_scope}
use file_storage_bucket.Http.{
  EvidenceRequest, Payload, Reply, Route, upload_sessions, complete_upload, put_content,
  scan_result, download_session, evidence_verification, respond, lacks_explicit_scope, verify_for,
  evidence_handler, serve_principal, serve_route, required_scope,
}

-- what runs by changes of the tables, whatever it replies
pub record Answers (f : World → Reply × World) : Type 0 where
  pub at : (w : World) → Changes w.tables (f w).1.tables

pub Answers-problem : (reply : Reply) → Answers (λ w. (reply, w))
Answers-problem reply = record { at = λ w. unchanged }

module _ {A : Type 0} (status : ℕ) (f : A → Payload) where
  respond-world : (p : Result A × World) → (respond status f p).1 ≡ p.1
  unfolding respond
  respond-world (ok a, w) = refl
  respond-world (err e, w) = refl

  pub Answers-respond :
      (m : World → Result A × World) → Runs m → Answers (λ w. respond status f (m w))
  Answers-respond m k = record {
    at = λ w. subst (λ v. Changes w.tables (World.tables v)) (sym (respond-world (m w))) (k.at w);
  }

pub Answers-if :
    (b : file_storage_bucket.Common.Bool) (f g : World → Reply × World)
    → Answers f
    → Answers g
    → Answers (λ w. if b then f w else g w)
Answers-if true f g k l = record { at = k.at }
Answers-if false f g k l = record { at = l.at }

module _ (s : Service) (environment : String) (r : Caller) where
  Runs-verify_for :
      (sc : Scope) (id : String) (b : EvidenceRequest) → Runs (verify_for s environment r sc id b)
  unfolding verify_for Evidence.evidence
  Runs-verify_for sc id b = by_reference b.resource_reference refl
    where
      by_reference :
          (o : Option String) → b.resource_reference ≡ o → Runs (verify_for s environment r sc id b)
      by_reference none is = record {
        at = λ w. rw is ((Runs-evidence s sc id b.party_id b.sha256).at w);
      }
      by_reference (some reference) is = record {
        at = λ w. rw is ((Runs-resource_evidence s sc id b.party_id b.sha256 reference).at w);
      }

  Answers-evidence_handler :
      (sc : Scope) (id : String) (o : Option EvidenceRequest)
      → Answers (evidence_handler s environment r sc id o)
  unfolding evidence_handler
  Answers-evidence_handler sc id none =
      Answers-if (lacks_explicit_scope environment sc) _ _ (Answers-problem _) (Answers-problem _)
  Answers-evidence_handler sc id (some b) =
      Answers-if (lacks_explicit_scope environment sc) _ _ (Answers-problem _)
        (Answers-respond 200 _ (verify_for s environment r sc id b) (Runs-verify_for sc id b))

  Answers-serve_principal :
      (p : Principal) (route : Route) → Answers (serve_principal s environment r p route)
  unfolding serve_principal
  Answers-serve_principal p (upload_sessions none entropy) = Answers-problem _
  Answers-serve_principal p (upload_sessions (some b) entropy) =
      Answers-respond 201 _ _ (Runs-create s _ _ entropy)
  Answers-serve_principal p (complete_upload id) = Answers-respond 202 _ _ (Runs-complete s _ id)
  Answers-serve_principal p (put_content id body) =
      Answers-respond 202 _ _ (Runs-upload_content s _ id body)
  Answers-serve_principal p (scan_result id none) = Answers-problem _
  Answers-serve_principal p (scan_result id (some b)) =
      Answers-respond 200 _ _ (Runs-record_scan s _ id _ _)
  Answers-serve_principal p (download_session id) = Answers-respond 200 _ _ (Runs-download s _ id)
  Answers-serve_principal p (evidence_verification id b) = Answers-evidence_handler _ id b

  pub Answers-serve_route :
      (o : Option Principal) (route : Route) → Answers (serve_route s environment r o route)
  unfolding serve_route
  Answers-serve_route none route = Answers-problem _
  Answers-serve_route (some p) route =
      Answers-if (not (has_scope p (required_scope route))) _ _ (Answers-problem _)
        (Answers-serve_principal p route)
