-- ===== src/Documents/Create/Written.antt =====
-- Service.Create: the row that a creation that succeeded inserted or renewed, column by column.
use file_storage_bucket.Common.{
  ℕ, String, none, true, List, [], ◌∷◌, ◌++◌, ◌≡◌, ◌⊎◌, inl, inr, refl, sym, arith, find?_sound,
  subst, In, modify_where, ◌==◌,
}
use file_storage_bucket.Text.{hex_encode}
use file_storage_bucket.Documents.Types.{Scope, CreateInput, Service, ok, pending_upload, pending}
use file_storage_bucket.Documents.Tables.{
  Row, Tables, insert_row, null_if_empty, same_source, may_renew,
}
use file_storage_bucket.Documents.Lifecycle.Inversion.{IsRenewed, insert_row-cases}
use file_storage_bucket.Documents.Create.{request_hash, new_row, new_id, object_key_of, magnitude}

-- the row of a creation has the columns of its scope and input that renewal may not change
pub record IsOf (sc : Scope) (input : CreateInput) (r : Row) : Type 0 where
  pub tenant : r.tenant_id ≡ sc.tenant_id
  pub environment : r.environment ≡ sc.environment
  pub application : r.source_application ≡ sc.application_id
  pub reference : r.source_reference ≡ null_if_empty input.source_reference
  pub owner : (r.owner_type ≡ input.owner_type) × (r.owner_id ≡ input.owner_id)
  pub document_type : r.document_type ≡ input.document_type
  pub purpose : r.purpose ≡ input.purpose
  pub classification : r.classification ≡ input.classification
  pub size : r.size_bytes ≡ magnitude input.size
  pub digest : r.sha256_hex ≡ input.sha256
  pub status : r.status ≡ pending_upload

-- a new row, at the end of the table
pub record IsInserted (s : Service) (sc : Scope) (input : CreateInput) (entropy : List ℕ)
    (expires now : ℕ) (r : Row) (rs us : List Row) : Type 0 where
  pub rows : us ≡ rs ++ r ∷ []
  pub id : r.public_id ≡ new_id "doc" entropy
  pub object : r.object_key ≡ object_key_of s sc input (new_id "doc" entropy)
  pub content_type : r.content_type ≡ input.content_type
  pub filename : r.original_filename ≡ input.filename
  pub key : r.idempotency_key ≡ input.idempotency_key
  pub content :
      r.request_hash
      ≡ hex_encode
          (s.platform.sha256_sum (s.platform.marshal (record input { idempotency_key = "" })))
  pub party : r.party_id ≡ null_if_empty input.party_id
  pub consent : r.consent_reference ≡ null_if_empty input.consent_reference
  pub retention :
      (r.retention_category ≡ input.retention_category) × (r.retain_until ≡ input.retain_until)
  pub bucket : r.bucket_name ≡ s.bucket
  pub created : (r.created_at ≡ now) × (r.updated_at ≡ now)
  pub created_by : r.created_by ≡ sc.subject
  pub unscanned : (r.scan_status ≡ pending) × (r.scan_attempts ≡ 0) × (r.uploaded_at ≡ none)
  pub upload_until : r.upload_expires_at ≡ expires

-- a row of the table whose upload may start again; it has no other change
pub record IsExtended (expires now : ℕ) (r : Row) (rs us : List Row) : Type 0 where
  pub old : Row
  pub stored : In old rs
  pub result : r ≡ record old { upload_expires_at = expires; updated_at = now }
  pub rows :
      us
      ≡ modify_where
          (λ x. x.public_id == old.public_id)
          (λ x. record x { upload_expires_at = expires; updated_at = now })
          rs

module _ (s : Service) (sc : Scope) (input : CreateInput) (entropy : List ℕ) where
  new_row-IsOf :
      (expires now : ℕ) → IsOf sc input (new_row s sc input (new_id "doc" entropy) expires now)
  unfolding new_row
  new_row-IsOf expires now = record {
    tenant = refl;
    environment = refl;
    application = refl;
    reference = refl;
    owner = (refl, refl);
    document_type = refl;
    purpose = refl;
    classification = refl;
    size = refl;
    digest = refl;
    status = refl;
  }

  same_source-IsOf :
      (id : String) (expires now : ℕ) (old : Row)
      → same_source (new_row s sc input id expires now) old ≡ true
      → may_renew (new_row s sc input id expires now) old ≡ true
      → IsOf sc input old
  unfolding new_row same_source may_renew
  same_source-IsOf id expires now old same may = record {
    tenant = ground arith;
    environment = ground arith;
    application = ground arith;
    reference = ground arith;
    owner = (ground arith, ground arith);
    document_type = ground arith;
    purpose = ground arith;
    classification = ground arith;
    size = ground arith;
    digest = ground arith;
    status = ground arith;
  }

  new_row-IsInserted :
      (expires now : ℕ) (t u : Tables)
      → u.rows ≡ t.rows ++ new_row s sc input (new_id "doc" entropy) expires now ∷ []
      → IsInserted s sc input entropy expires now
          (new_row s sc input (new_id "doc" entropy) expires now)
          t.rows
          u.rows
  unfolding new_row request_hash
  new_row-IsInserted expires now t u h = record {
    rows = h;
    id = refl;
    object = refl;
    content_type = refl;
    filename = refl;
    key = refl;
    content = refl;
    party = refl;
    consent = refl;
    retention = (refl, refl);
    bucket = refl;
    created = (refl, refl);
    created_by = refl;
    unscanned = (refl, refl, refl);
    upload_until = refl;
  }

  renew-IsExtended :
      (id : String) (expires now : ℕ) (r : Row) (t u : Tables)
      → IsRenewed now (new_row s sc input id expires now) r t u
      → IsExtended expires now r t.rows u.rows × IsOf sc input r
  unfolding new_row
  renew-IsExtended id expires now r t u k =
      let (same, place) = find?_sound _ t.rows k.old k.matched in
      let of_input = same_source-IsOf id expires now k.old same k.renewable in
      (
        record { old = k.old; stored = place; result = k.result; rows = k.rows },
        subst (IsOf sc input) (sym k.result) (record {
          tenant = of_input.tenant;
          environment = of_input.environment;
          application = of_input.application;
          reference = of_input.reference;
          owner = of_input.owner;
          document_type = of_input.document_type;
          purpose = of_input.purpose;
          classification = of_input.classification;
          size = of_input.size;
          digest = of_input.digest;
          status = of_input.status;
        }),
      )

  pub insert_row-IsOf :
      (expires now : ℕ) (r : Row) (t m : Tables) (us : List Row)
      → insert_row now (new_row s sc input (new_id "doc" entropy) expires now) t ≡ ok (r, m)
      → us ≡ m.rows
      → IsOf sc input r
        × (IsInserted s sc input entropy expires now r t.rows us
            ⊎ IsExtended expires now r t.rows us)
  insert_row-IsOf expires now r t m us h e =
      let new = new_row s sc input (new_id "doc" entropy) expires now in
      elim (insert_row-cases now new r t m h) [
        | inl added ↦
            rw (added.result, e)
              (new_row-IsOf expires now, inl (new_row-IsInserted expires now t m added.rows))
        | inr renewed ↦
            let (extended, of_input) =
              renew-IsExtended (new_id "doc" entropy) expires now r t m renewed in
            rw e (of_input, inr extended)
      ]
