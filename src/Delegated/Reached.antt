-- ===== src/Delegated/Reached.antt =====
-- The changes of the tables that the delegated routes make.
use file_storage_bucket.Common.{
  ℕ, String, Option, none, some, not, ◌≡◌, refl, sym, ap, subst, if◌then◌else◌, ltb, len, ◌==◌,
  true, false,
}
use file_storage_bucket.Documents.Types.{Scope, Document, Service, not_found}
use file_storage_bucket.Documents.Exec.{World, Action, tick, pure, raise_if}
use file_storage_bucket.Documents.Changes.{Changes, unchanged}
use file_storage_bucket.Documents.Changes.Runs.{Runs, Runs-bind, Runs-raise_if, Runs-pure}
use file_storage_bucket.Documents.Changes.Methods.{
  Runs-create, Runs-upload_content, Runs-resource_evidence, Runs-bank_account_document,
  Runs-bank_account_evidence, Runs-open_bank_account_evidence, Runs-case_upload, Runs-case_uploads,
  Runs-open_evidence,
}
use file_storage_bucket.Http.Reached.{Answers, Answers-problem, Answers-respond, Answers-if}
use file_storage_bucket.Auth.{Principal}
use file_storage_bucket.Delegated.{Visit, Access, denied, granted, purposed, is_base}
use file_storage_bucket.Delegated.Payment
use file_storage_bucket.Delegated.BankAccount
use file_storage_bucket.Delegated.BankAccount.{Parsed, malformed, ambiguous, explicit, parse_scope}
use file_storage_bucket.Delegated.Case

Runs-purposed : (purpose : String) (m : Action Document) → Runs m → Runs (purposed purpose m)
unfolding purposed
Runs-purposed purpose m k = Runs-bind m _ k (λ d.
    Runs-bind (raise_if (not (d.purpose == purpose)) not_found) (λ _. pure d) (Runs-raise_if _ _)
      (λ _. Runs-pure d))

-- a decision that asks another service leaves the tables as they were
module _ {G : Type 0} where
  -- the decision leaves the tables as they are
  pub record Decides (f : World → Access G × World) : Type 0 where
    pub keeps : (w : World) → (f w).1.tables ≡ w.tables

  Decides-denied : (status : ℕ) (code : String) → Decides (λ w. (denied status code, w))
  Decides-denied status code = record { keeps = λ w. refl }

  Decides-asked : (f : World → Access G) → Decides (λ w. (f w, tick w))
  Decides-asked f = record { keeps = λ w. refl }

  Decides-if :
      (b : file_storage_bucket.Common.Bool) (f g : World → Access G × World)
      → Decides f
      → Decides g
      → Decides (λ w. if b then f w else g w)
  Decides-if true f g k l = record { keeps = k.keeps }
  Decides-if false f g k l = record { keeps = l.keeps }

module _ (c : Payment.Setting) (s : Service) (v : Visit) where
  payment_granted :
      (sc : Scope) (g : Payment.PaymentGrant) (route : Payment.PaymentRoute)
      → Answers (Payment.serve_granted c s v sc g route)
  unfolding Payment.serve_granted
  payment_granted sc g (Payment.new_session none entropy) = Answers-problem _
  payment_granted sc g (Payment.new_session (some file) entropy) =
      Answers-respond 201 _ _ (Runs-create s sc _ entropy)
  payment_granted sc g Payment.read_document =
      Answers-respond 200 _ _ (Runs-purposed _ _ (Runs-case_upload s sc _ _ _))
  payment_granted sc g (Payment.put_content body) = Answers-respond 202 _ _ (
      Runs-bind _ _ (Runs-purposed _ _ (Runs-case_upload s sc _ _ _))
        (λ _. Runs-upload_content s sc g.document_id body))
  payment_granted sc g Payment.get_content = Answers-respond 200 _ _ (
      Runs-bind _ _ (Runs-purposed _ _ (Runs-resource_evidence s sc _ _ _ _))
        (λ _. Runs-open_evidence s sc _ _ _))
  payment_granted sc g Payment.verify_version =
      Answers-respond 200 _ _ (Runs-purposed _ _ (Runs-resource_evidence s sc _ _ _ _))

  payment_decided :
      (o : Option Principal) (intent : String) → Decides (Payment.authorize_evidence c v o intent)
  unfolding Payment.authorize_evidence
  payment_decided none intent = Decides-denied _ _
  payment_decided (some p) intent = Decides-if (Payment.is_foreign c v p) _ _ (Decides-denied _ _) (
      Decides-if (not (is_base (c.upstream.parse_url c.upstream.base))) _ _ (Decides-denied _ _)
        (Decides-asked _))

  payment_access :
      (route : Payment.PaymentRoute) (a : Access Payment.PaymentGrant) (w : World)
      → Changes w.tables (Payment.serve_access c s v route (a, w)).1.tables
  unfolding Payment.serve_access
  payment_access route (denied status code) w = unchanged
  payment_access route (granted sc g) w = (payment_granted sc g route).at w

  pub Answers-serve_payment :
      (route : Payment.PaymentRoute) → Answers (Payment.serve_payment c s v route)
  unfolding Payment.serve_payment
  Answers-serve_payment route = record {
    at = λ w.
        let run = Payment.authorize_evidence c v v.principal (Payment.intent_of route) w in
        subst (λ t. Changes t (Payment.serve_access c s v route run).1.tables)
          ((payment_decided v.principal (Payment.intent_of route)).keeps w)
          (payment_access route run.0 run.1);
  }

module _ (c : BankAccount.Setting) (s : Service) (v : Visit) where
  account_granted :
      (sc : Scope) (g : BankAccount.AccountGrant) (route : BankAccount.AccountRoute)
      → Answers (BankAccount.serve_granted c s v sc g route)
  unfolding BankAccount.serve_granted
  account_granted sc g (BankAccount.new_session none entropy) = Answers-problem _
  account_granted sc g (BankAccount.new_session (some file) entropy) =
      Answers-respond 201 _ _ (Runs-create s sc _ entropy)
  account_granted sc g BankAccount.read_document =
      Answers-respond 200 _ _ (Runs-bank_account_document s sc _)
  account_granted sc g (BankAccount.put_content body) = Answers-respond 202 _ _ (
      Runs-bind _ _ (Runs-bank_account_document s sc _)
        (λ _. Runs-upload_content s sc g.document_id body))
  account_granted sc g BankAccount.get_content =
      Answers-respond 200 _ _ (Runs-open_bank_account_evidence s sc _ _)
  account_granted sc g BankAccount.verify_version =
      Answers-respond 200 _ _ (Runs-bank_account_evidence s sc _ _)

  scope_decided :
      (p : Principal) (intent : String) (q : Parsed)
      → Decides (BankAccount.authorize_scope c s v p intent q)
  unfolding BankAccount.authorize_scope
  scope_decided p intent malformed = Decides-denied _ _
  scope_decided p intent ambiguous = Decides-denied _ _
  scope_decided p intent (explicit q) =
      Decides-if (not (is_base (c.upstream.parse_url c.upstream.base))) _ _ (Decides-denied _ _)
        (Decides-asked _)

  account_decided :
      (o : Option Principal) (intent : String)
      → Decides (BankAccount.authorize_account c s v o intent)
  unfolding BankAccount.authorize_account
  account_decided none intent = Decides-denied _ _
  account_decided (some p) intent =
      Decides-if (BankAccount.is_foreign c v p) _ _ (Decides-denied _ _)
        (scope_decided p intent (parse_scope v.parsed))

  account_access :
      (route : BankAccount.AccountRoute) (a : Access BankAccount.AccountGrant) (w : World)
      → Changes w.tables (BankAccount.serve_access c s v route (a, w)).1.tables
  unfolding BankAccount.serve_access
  account_access route (denied status code) w = unchanged
  account_access route (granted sc g) w = (account_granted sc g route).at w

  pub Answers-serve_account :
      (route : BankAccount.AccountRoute) → Answers (BankAccount.serve_account c s v route)
  unfolding BankAccount.serve_account
  Answers-serve_account route = record {
    at = λ w.
        let run = BankAccount.authorize_account c s v v.principal (BankAccount.intent_of route) w in
        subst (λ t. Changes t (BankAccount.serve_access c s v route run).1.tables)
          ((account_decided v.principal (BankAccount.intent_of route)).keeps w)
          (account_access route run.0 run.1);
  }

module _ (c : Case.Setting) (s : Service) (v : Visit) where
  case_granted :
      (sc : Scope) (g : Case.CaseGrant) (route : Case.CaseRoute)
      → Answers (Case.serve_granted c s v sc g route)
  unfolding Case.serve_granted
  case_granted sc g Case.list_documents =
      Answers-if (ltb 128 (len (v.query "after"))) _ _ (Answers-problem _)
        (Answers-respond 200 _ _ (Runs-case_uploads s sc _ _ _))
  case_granted sc g Case.get_content = Answers-respond 200 _ _ (Runs-open_evidence s sc _ _ _)
  case_granted sc g (Case.new_session none entropy) = Answers-problem _
  case_granted sc g (Case.new_session (some file) entropy) =
      Answers-respond 201 _ _ (Runs-create s sc _ entropy)
  case_granted sc g Case.read_document = Answers-respond 200 _ _ (Runs-case_upload s sc _ _ _)
  case_granted sc g (Case.put_content body) = Answers-respond 202 _ _ (
      Runs-bind _ _ (Runs-case_upload s sc _ _ _)
        (λ _. Runs-upload_content s sc g.document_id body))

  case_decided :
      (o : Option Principal) (intent : String) → Decides (Case.authorize_case c v o intent)
  unfolding Case.authorize_case
  case_decided none intent = Decides-denied _ _
  case_decided (some p) intent =
      Decides-if (Case.is_foreign c v p) _ _ (Decides-denied _ _)
        (Decides-if (c.upstream.base == "") _ _ (Decides-denied _ _) (Decides-asked _))

  case_access :
      (route : Case.CaseRoute) (a : Access Case.CaseGrant) (w : World)
      → Changes w.tables (Case.serve_access c s v route (a, w)).1.tables
  unfolding Case.serve_access
  case_access route (denied status code) w = unchanged
  case_access route (granted sc g) w = (case_granted sc g route).at w

  pub Answers-serve_case : (route : Case.CaseRoute) → Answers (Case.serve_case c s v route)
  unfolding Case.serve_case
  Answers-serve_case route = record {
    at = λ w.
        let run = Case.authorize_case c v v.principal (Case.intent_of route) w in
        subst (λ t. Changes t (Case.serve_access c s v route run).1.tables)
          ((case_decided v.principal (Case.intent_of route)).keeps w)
          (case_access route run.0 run.1);
  }
