-- ===== src/Documents/Create/Valid.antt =====
-- Service.Create: the scopes and inputs that pass its validation, field by field.
use file_storage_bucket.Common.{
  ℕ, ◌≤◌, String, len, Bool, true, false, List, [], ◌∷◌, any, In, ◌≡◌, ◌≢◌, ◌⊎◌, inl, inr, refl,
  arith, ◌==◌, ◌||◌, not, ltb, Bool-cases,
}
use file_storage_bucket.Text.{trim_space}
use file_storage_bucket.Text.Digest.{IsDigest, is_sha256-IsDigest}
use file_storage_bucket.Documents.Types.{ℤ, pos, negsuc, Scope, CreateInput}
use file_storage_bucket.Documents.Access.{valid_bank_account_scope}
use file_storage_bucket.Documents.Create.{
  scope_invalid, input_invalid, size_in_range, allowed_owners, allowed_types, allowed_classes,
}

-- who creates, for which tenant: only evidence of a bank account of the lender has no tenant
pub record IsNamed (sc : Scope) (input : CreateInput) : Type 0 where
  pub subject : sc.subject ≢ ""
  pub application : sc.application_id ≢ ""
  pub environment : sc.environment ≢ ""
  pub tenant :
      (sc.tenant_id ≢ "")
      ⊎ ((input.purpose ≡ "bank_account_verification")
          × (sc.bank_account_owner_type ≡ "LEGAL_ENTITY")
          × (trim_space sc.bank_account_reference ≢ "")
          × (trim_space sc.bank_account_owner_id ≢ ""))

pub record IsComplete (input : CreateInput) : Type 0 where
  pub owner_type : In input.owner_type (
      "PARTY" ∷ "LEGAL_ENTITY" ∷ "ORGANISATIONAL_UNIT" ∷ "CASE" ∷ "PRODUCT_RESOURCE"
      ∷ "REGULATORY_RECORD" ∷ [])
  pub owner_id : (input.owner_id ≢ "") × (len input.owner_id ≤ 128)
  pub document_type : input.document_type ≢ ""
  pub purpose : input.purpose ≢ ""
  pub retention : input.retention_category ≢ ""
  pub filename : (input.filename ≢ "") × (len input.filename ≤ 255)
  pub key : (input.idempotency_key ≢ "") × (len input.idempotency_key ≤ 128)
  pub content_type :
      In input.content_type ("application/pdf" ∷ "image/jpeg" ∷ "image/png" ∷ "text/csv" ∷ [])
  pub classification : In input.classification ("INTERNAL" ∷ "CONFIDENTIAL" ∷ "RESTRICTED" ∷ [])
  pub size : (n : ℕ) × (input.size ≡ pos n) × (1 ≤ n) × (n ≤ 52428800)
  pub digest : IsDigest input.sha256

bank_scope :
    (sc : Scope)
    → valid_bank_account_scope sc ≡ true
    → sc.tenant_id ≡ ""
    → (sc.bank_account_owner_type ≡ "LEGAL_ENTITY")
      × (trim_space sc.bank_account_reference ≢ "")
      × (trim_space sc.bank_account_owner_id ≢ "")
unfolding valid_bank_account_scope
bank_scope sc h e = (ground arith, ground arith, ground arith)

pub scope_invalid-IsNamed :
    (sc : Scope) (input : CreateInput) → scope_invalid sc input ≡ false → IsNamed sc input
unfolding scope_invalid
scope_invalid-IsNamed sc input h = record {
  subject = ground arith;
  application = ground arith;
  environment = ground arith;
  tenant = elim (Bool-cases (sc.tenant_id == "")) [
    | inr has ↦ inl (ground arith)
    | inl none ↦
        let purpose : input.purpose ≡ "bank_account_verification" = ground arith in
        let (kind, reference, owner) = bank_scope sc (ground arith) (ground arith) in
        inr (purpose, kind, reference, owner)
  ];
}

in_range : (z : ℤ) → size_in_range z ≡ true → (n : ℕ) × (z ≡ pos n) × (1 ≤ n) × (n ≤ 52428800)
in_range (pos n) h = (n, refl, ground arith, ground arith)
in_range (negsuc n) h = cc

listed : (x : String) (xs : List String) → any (λ y. y == x) xs ≡ true → In x xs
listed x [] h = cc
listed x (y ∷ ys) h = elim (Bool-cases (y == x)) [
  | inl here ↦ inl (ground arith)
  | inr there ↦ inr (listed x ys (ground arith))
]

or-false : (a b : Bool) → a || b ≡ false → (a ≡ false) × (b ≡ false)
or-false a b h = (ground arith, ground arith)

named : (s : String) → s == "" ≡ false → s ≢ ""
named s h = ground arith

short : (n : ℕ) (s : String) → ltb n (len s) ≡ false → len s ≤ n
short n s h = ground arith

holds : (b : Bool) → not b ≡ false → b ≡ true
holds b h = ground arith

pub input_invalid-IsComplete :
    (input : CreateInput) → input_invalid input ≡ false → IsComplete input
unfolding input_invalid
input_invalid-IsComplete input h =
    let (h1, o) = or-false _ _ h in
    let (h2, n) = or-false _ _ h1 in
    let (h3, m) = or-false _ _ h2 in
    let (h4, l) = or-false _ _ h3 in
    let (h5, k) = or-false _ _ h4 in
    let (h6, j) = or-false _ _ h5 in
    let (h7, i) = or-false _ _ h6 in
    let (h8, g) = or-false _ _ h7 in
    let (h9, f) = or-false _ _ h8 in
    let (h10, e) = or-false _ _ h9 in
    let (h11, d) = or-false _ _ h10 in
    let (h12, c) = or-false _ _ h11 in
    let (a, b) = or-false _ _ h12 in
    record {
      owner_type =
          listed input.owner_type allowed_owners
            (holds (any (λ y. y == input.owner_type) allowed_owners) a);
      owner_id = (named _ b, short _ _ c);
      document_type = named _ d;
      purpose = named _ e;
      retention = named _ f;
      filename = (named _ g, short _ _ i);
      key = (named _ j, short _ _ k);
      content_type =
          listed input.content_type allowed_types
            (holds (any (λ y. y == input.content_type) allowed_types) l);
      classification =
          listed input.classification allowed_classes
            (holds (any (λ y. y == input.classification) allowed_classes) m);
      size = in_range input.size (holds _ n);
      digest = is_sha256-IsDigest input.sha256 (holds _ o);
    }
