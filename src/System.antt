-- ===== src/System.antt =====
-- The whole service: any sequence of requests and scanner cycles, with whatever calls of the
-- database and of the other services failing.
use file_storage_bucket.Common.{
  ℕ, ◌≤◌, String, Option, none, some, List, [], ◌∷◌, ◌≡◌, ◌⊎◌, inl, inr, refl, sym, ap, subst,
  arith, In,
}
use file_storage_bucket.Documents.Types.{
  Scope, CreateInput, Body, Error, Result, Service, Status, pending_upload, uploaded, quarantined,
  available, rejected, expired,
}
use file_storage_bucket.Documents.Tables.{Row}
use file_storage_bucket.Documents.Exec.{World}
use file_storage_bucket.Documents.Create
use file_storage_bucket.Documents.Upload
use file_storage_bucket.Documents.Evidence
use file_storage_bucket.Documents.Changes.{Changes, unchanged, Changes-trans}
use file_storage_bucket.Documents.Changes.Runs.{Runs, Runs-pure, Runs-raise, runs_rules}
use file_storage_bucket.Documents.Changes.Methods.{
  Runs-create, Runs-complete, Runs-upload_content, Runs-record_scan, Runs-download, Runs-evidence,
  Runs-resource_evidence, Runs-bank_account_document, Runs-bank_account_evidence,
  Runs-open_bank_account_evidence, Runs-case_upload, Runs-case_uploads, Runs-open_evidence,
}
use file_storage_bucket.Documents.Changes.Statements.{Runs-lease_next}
use file_storage_bucket.Documents.Lifecycle.{
  AllLater, IsLater, frozen, stage, Extends, IsConsistent,
}
use file_storage_bucket.Documents.Lifecycle.Later.{Changes-AllLater}
use file_storage_bucket.Documents.Lifecycle.Sound.{Changes-IsConsistent}
use file_storage_bucket.Documents.Phases.{Refines}
use file_storage_bucket.Documents.Phases.Refined.{Changes-Refines}
use file_storage_bucket.Auth.{Principal, Caller}
use file_storage_bucket.Http.{Route, serve_route}
use file_storage_bucket.Http.Reached.{Answers-serve_route}
use file_storage_bucket.Delegated.{Visit}
use file_storage_bucket.Delegated.Payment
use file_storage_bucket.Delegated.BankAccount
use file_storage_bucket.Delegated.Case
use file_storage_bucket.Delegated.Reached.{
  Answers-serve_payment, Answers-serve_account, Answers-serve_case,
}
use file_storage_bucket.Scanner.{ScanReport, report_error, scan_leased, process_one}

-- the exported methods of the service, the requests of the HTTP routes, and a cycle of the scanner
pub data Request : Type 0 where
  create : Scope → CreateInput → List ℕ → Request
  complete : Scope → String → Request
  upload_content : Scope → String → Body → Request
  record_scan : Scope → (id outcome reason : String) → Request
  download : Scope → String → Request
  evidence : Scope → (id party digest : String) → Request
  resource_evidence : Scope → (id party digest reference : String) → Request
  bank_account_document : Scope → String → Request
  bank_account_evidence : Scope → (id digest : String) → Request
  open_bank_account_evidence : Scope → (id digest : String) → Request
  case_upload : Scope → (application party id : String) → Request
  case_uploads : Scope → (application party after : String) → Request
  open_evidence : Scope → (id party digest : String) → Request
  document_route : (environment : String) → Caller → Option Principal → Route → Request
  payment_route : Payment.Setting → Visit → Payment.PaymentRoute → Request
  account_route : BankAccount.Setting → Visit → BankAccount.AccountRoute → Request
  case_route : Case.Setting → Visit → Case.CaseRoute → Request
  scan_cycle : Request

AllLater-In :
    (rs rs' : List Row) (r : Row)
    → AllLater rs rs'
    → In r rs
    → (r' : Row) × In r' rs' × IsLater r r'
AllLater-In [] rs' r h i = absurd i
AllLater-In (x ∷ rs) [] r h i = absurd h
AllLater-In (x ∷ rs) (y ∷ rs') r (here, rest) (inl e) =
    (y, inl refl, subst (λ z. IsLater z y) (sym e) here)
AllLater-In (x ∷ rs) (y ∷ rs') r (here, rest) (inr i) =
    let (r', j, later) = AllLater-In rs rs' r rest i in (r', inr j, later)

stage-bounded : (st : Status) → stage st ≤ 2
stage-bounded pending_upload = omega arith
stage-bounded quarantined = omega arith
stage-bounded uploaded = omega arith
stage-bounded available = omega arith
stage-bounded rejected = omega arith
stage-bounded expired = omega arith

IsLater-final :
    (r r' : Row)
    → IsLater r r'
    → (r.status ≡ available) ⊎ (r.status ≡ rejected)
    → r'.status ≡ r.status
IsLater-final r r' (same, inl e, more) final = e
IsLater-final r r' (same, inr up, more) (inl e) =
    let top : stage r.status ≡ 2 = ap stage e in
    let bound = stage-bounded r'.status in absurd (omega arith)
IsLater-final r r' (same, inr up, more) (inr e) =
    let top : stage r.status ≡ 2 = ap stage e in
    let bound = stage-bounded r'.status in absurd (omega arith)

Runs-report_error : (e : Option Error) → Runs (report_error e)
unfolding report_error
Runs-report_error none = Runs-pure tt
Runs-report_error (some e) = Runs-raise e

module _ (s : Service) (objects : ℕ → String → Result (List ℕ))
    (scan : ℕ → List ℕ → ScanReport) where
  -- the world after a request
  unfoldable pub serve : Request → World → World
  serve (create sc input entropy) w = (Create.create s sc input entropy w).1
  serve (complete sc id) w = (Upload.complete s sc id w).1
  serve (upload_content sc id body) w = (Upload.upload_content s sc id body w).1
  serve (record_scan sc id outcome reason) w = (Upload.record_scan s sc id outcome reason w).1
  serve (download sc id) w = (Upload.download s sc id w).1
  serve (evidence sc id party digest) w = (Evidence.evidence s sc id party digest w).1
  serve (resource_evidence sc id party digest reference) w =
      (Evidence.resource_evidence s sc id party digest reference w).1
  serve (bank_account_document sc id) w = (Evidence.bank_account_document s sc id w).1
  serve (bank_account_evidence sc id digest) w = (Evidence.bank_account_evidence s sc id digest w).1
  serve (open_bank_account_evidence sc id digest) w =
      (Evidence.open_bank_account_evidence s sc id digest w).1
  serve (case_upload sc application party id) w =
      (Evidence.case_upload s sc application party id w).1
  serve (case_uploads sc application party after) w =
      (Evidence.case_uploads s sc application party after w).1
  serve (open_evidence sc id party digest) w = (Evidence.open_evidence s sc id party digest w).1
  serve (document_route environment r o route) w = (serve_route s environment r o route w).1
  serve (payment_route c v route) w = (Payment.serve_payment c s v route w).1
  serve (account_route c v route) w = (BankAccount.serve_account c s v route w).1
  serve (case_route c v route) w = (Case.serve_case c s v route w).1
  serve scan_cycle w = (process_one s objects scan w).1

  unfoldable pub serve_all : List Request → World → World
  serve_all [] w = w
  serve_all (r ∷ rs) w = serve_all rs (serve r w)

  Runs-scan_leased : (found : Option Row) → Runs (scan_leased s objects scan found)
  unfolding scan_leased
  Runs-scan_leased none = Runs-pure tt
  Runs-scan_leased (some r) = search (runs_rules, Runs-record_scan, Runs-report_error) depth 10

  Runs-process_one : Runs (process_one s objects scan)
  unfolding process_one
  Runs-process_one = search (runs_rules, Runs-lease_next, Runs-scan_leased)

  serve-Changes : (r : Request) (w : World) → Changes w.tables (serve r w).tables
  unfolding serve
  serve-Changes (create sc input entropy) w = (Runs-create s sc input entropy).at w
  serve-Changes (complete sc id) w = (Runs-complete s sc id).at w
  serve-Changes (upload_content sc id body) w = (Runs-upload_content s sc id body).at w
  serve-Changes (record_scan sc id outcome reason) w =
      (Runs-record_scan s sc id outcome reason).at w
  serve-Changes (download sc id) w = (Runs-download s sc id).at w
  serve-Changes (evidence sc id party digest) w = (Runs-evidence s sc id party digest).at w
  serve-Changes (resource_evidence sc id party digest reference) w =
      (Runs-resource_evidence s sc id party digest reference).at w
  serve-Changes (bank_account_document sc id) w = (Runs-bank_account_document s sc id).at w
  serve-Changes (bank_account_evidence sc id digest) w =
      (Runs-bank_account_evidence s sc id digest).at w
  serve-Changes (open_bank_account_evidence sc id digest) w =
      (Runs-open_bank_account_evidence s sc id digest).at w
  serve-Changes (case_upload sc application party id) w =
      (Runs-case_upload s sc application party id).at w
  serve-Changes (case_uploads sc application party after) w =
      (Runs-case_uploads s sc application party after).at w
  serve-Changes (open_evidence sc id party digest) w =
      (Runs-open_evidence s sc id party digest).at w
  serve-Changes (document_route environment r o route) w =
      (Answers-serve_route s environment r o route).at w
  serve-Changes (payment_route c v route) w = (Answers-serve_payment c s v route).at w
  serve-Changes (account_route c v route) w = (Answers-serve_account c s v route).at w
  serve-Changes (case_route c v route) w = (Answers-serve_case c s v route).at w
  serve-Changes scan_cycle w = Runs-process_one.at w

  serve_all-Changes : (rs : List Request) (w : World) → Changes w.tables (serve_all rs w).tables
  unfolding serve_all
  serve_all-Changes [] w = unchanged
  serve_all-Changes (r ∷ rs) w =
      Changes-trans (serve-Changes r w) (serve_all-Changes rs (serve r w))

  -- Whatever the requests and the scanner cycles, and whichever calls fail, no row is lost or
  -- changes its identity, every status stays or moves to a later stage, and no audit event is lost.
  pub serve_all-AllLater :
      (rs : List Request) (w : World)
      → AllLater w.tables.rows (serve_all rs w).tables.rows
        × Extends w.tables.audit (serve_all rs w).tables.audit
  serve_all-AllLater rs w = Changes-AllLater (serve_all-Changes rs w)

  -- A document that is available or rejected keeps its status, its identity and its content's digest
  -- whatever follows.
  pub serve_all-final :
      (rs : List Request) (w : World) (r : Row)
      → In r w.tables.rows
      → (r.status ≡ available) ⊎ (r.status ≡ rejected)
      → (r' : Row) × In r' (serve_all rs w).tables.rows
        × (frozen r' ≡ frozen r)
        × (r'.status ≡ r.status)
  serve_all-final rs w r i final =
      let (r', j, later) =
        AllLater-In w.tables.rows (serve_all rs w).tables.rows r (serve_all-AllLater rs w).0 i in
      (r', j, later.0, IsLater-final r r' later final)

  -- From consistent tables they lead to consistent tables, whichever calls fail.
  pub serve_all-IsConsistent :
      (rs : List Request) (w : World) → IsConsistent w.tables → IsConsistent (serve_all rs w).tables
  serve_all-IsConsistent rs w c = Changes-IsConsistent (serve_all-Changes rs w) c

  -- From consistent tables, whatever the requests and the scanner cycles, and whichever calls fail,
  -- every document moves by steps of the abstract machine, and every new one starts in its initial
  -- state and moves by its steps: it is queued only from awaiting its upload, a scan is begun at most
  -- five times, and only the end of a scan of a queued, held or retrying document releases, refuses
  -- or returns it.
  pub serve_all-Refines :
      (rs : List Request) (w : World)
      → IsConsistent w.tables
      → Refines w.tables.rows (serve_all rs w).tables.rows
  serve_all-Refines rs w c = Changes-Refines (serve_all-Changes rs w) c
