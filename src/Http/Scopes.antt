-- ===== src/Http/Scopes.antt =====
-- require: who gets past it, on which document route.
use file_storage_bucket.Common.{
  ℕ, String, true, false, Option, none, some, List, [], ◌∷◌, any, In, ◌≡◌, ◌⊎◌, inl, inr, refl,
  arith, ◌==◌, Bool-cases,
}
use file_storage_bucket.Documents.Types.{Service, Body}
use file_storage_bucket.Documents.Exec.{World}
use file_storage_bucket.Auth.{Principal, Caller, has_scope}
use file_storage_bucket.Http.{
  UploadSession, ScanResult, EvidenceRequest, Route, upload_sessions, complete_upload, put_content,
  scan_result, download_session, evidence_verification, problem, required_scope, serve_principal,
  serve_route,
}

-- the scope that the token of a request needs, by the route
pub data Needs : Route → String → Type 0 where
  new_session :
      (b : Option UploadSession) (entropy : List ℕ)
      → Needs (upload_sessions b entropy) "documents.write"
  completion : (id : String) → Needs (complete_upload id) "documents.write"
  content : (id : String) (body : Body) → Needs (put_content id body) "documents.write"
  outcome : (id : String) (b : Option ScanResult) → Needs (scan_result id b) "documents.scan"
  link : (id : String) → Needs (download_session id) "documents.read"
  verification :
      (id : String) (b : Option EvidenceRequest)
      → Needs (evidence_verification id b) "documents.evidence.verify"

required_scope-Needs :
    (route : Route) (scope : String) → Needs route scope → required_scope route ≡ scope
unfolding required_scope
required_scope-Needs _ _ (new_session b entropy) = refl
required_scope-Needs _ _ (completion id) = refl
required_scope-Needs _ _ (content id body) = refl
required_scope-Needs _ _ (outcome id b) = refl
required_scope-Needs _ _ (link id) = refl
required_scope-Needs _ _ (verification id b) = refl

any-In : (scope : String) (xs : List String) → any (λ x. x == scope) xs ≡ true → In scope xs
any-In scope [] h = cc
any-In scope (x ∷ xs) h = elim (Bool-cases (x == scope)) [
  | inl here ↦ inl (ground arith)
  | inr there ↦ inr (any-In scope xs (ground arith))
]

not_any-In : (scope : String) (xs : List String) → any (λ x. x == scope) xs ≡ false → ¬ In scope xs
not_any-In scope [] h k = k
not_any-In scope (x ∷ xs) h (inl here) = ground arith
not_any-In scope (x ∷ xs) h (inr there) = not_any-In scope xs (ground arith) there

has_scope-cases :
    (p : Principal) (scope : String)
    → ((has_scope p scope ≡ true) × In scope p.scopes)
      ⊎ ((has_scope p scope ≡ false) × (¬ In scope p.scopes))
unfolding has_scope
has_scope-cases p scope = elim (Bool-cases (has_scope p scope)) [
  | inl has ↦ inl (has, any-In scope p.scopes has)
  | inr lacks ↦ inr (lacks, not_any-In scope p.scopes lacks)
]

module _ (s : Service) (environment : String) (r : Caller) where
  -- Of a document route that needs a scope (documents.write to start, fill and complete an upload,
  -- documents.scan to report a scan, documents.read for a download and documents.evidence.verify for
  -- evidence), a request by nobody gets the problem 401 and a request by a principal without this
  -- scope the problem 403, and neither changes the world; for a principal whose scopes contain it,
  -- the handler of the route runs.
  pub serve_route-cases :
      (o : Option Principal) (route : Route) (scope : String) (w : World)
      → Needs route scope
      → ((o ≡ none) × (serve_route s environment r o route w ≡ (problem 401 "unauthorized", w)))
        ⊎ (((p : Principal) × (o ≡ some p)
              × (¬ In scope p.scopes)
              × (serve_route s environment r o route w ≡ (problem 403 "insufficient_scope", w)))
            ⊎ ((p : Principal) × (o ≡ some p)
                × In scope p.scopes
                × (serve_route s environment r o route w
                    ≡ serve_principal s environment r p route w)))
  unfolding serve_route
  serve_route-cases none route scope w n = inl (refl, refl)
  serve_route-cases (some p) route scope w n =
      let needed = required_scope-Needs route scope n in
      elim (has_scope-cases p scope) [
        | inr (lacks, outside) ↦ inr (inl (p, refl, outside, ground arith))
        | inl (has, inside) ↦ inr (inr (p, refl, inside, ground arith))
      ]
