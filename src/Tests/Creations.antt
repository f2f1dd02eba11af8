-- ===== src/Tests/Creations.antt =====
-- The theorem on repeated creations at a concrete input.
use file_storage_bucket.Common.{[], ◌∷◌, refl, ◌≡◌, String_discrete}
use file_storage_bucket.Documents.Types.{ok}
use file_storage_bucket.Documents.Access.{with_object}
use file_storage_bucket.Documents.Exec.{World, tick}
use file_storage_bucket.Documents.Create.{create}
use file_storage_bucket.Documents.Create.Repeated.{create-repeated}
use file_storage_bucket.Tests.Fixtures.{s, staff, deed, empty, made_row, link, key}

abbrev after_first : World
after_first = (create s staff deed (7 ∷ []) empty).1

first_run :
    create s staff deed (7 ∷ []) empty ≡ (ok (with_object made_row, link 6 key), after_first)
unfolding create file_storage_bucket.Documents.Exec.◌>>=◌
    file_storage_bucket.Documents.Create.lacks_grant String_discrete
    file_storage_bucket.Documents.Create.scope_invalid
    file_storage_bucket.Documents.Create.effective_scope
    file_storage_bucket.Documents.Create.input_invalid
    file_storage_bucket.Documents.Create.normalise file_storage_bucket.Text.to_upper
    file_storage_bucket.Text.trim_space file_storage_bucket.Text.base
    file_storage_bucket.Text.is_sha256 file_storage_bucket.Text.to_lower
    file_storage_bucket.Documents.Access.get_idempotent file_storage_bucket.Documents.Exec.statement
    file_storage_bucket.Documents.Exec.transaction file_storage_bucket.Documents.Tables.insert_row
    file_storage_bucket.Documents.Tables.row_ok file_storage_bucket.Documents.Create.new_row
    file_storage_bucket.Documents.Create.new_id file_storage_bucket.Text.hex_encode
    file_storage_bucket.Documents.Audit.record_event
    file_storage_bucket.Documents.Tables.append_event
first_run = refl

second_link :
    s.objects.presign_upload 8
      (with_object made_row).object_key
      (with_object made_row).content_type
      (with_object made_row).sha256
      (with_object made_row).size
      s.upload_ttl
    ≡ ok (link 8 key)
second_link = refl

calls_after : after_first.calls ≡ 7
unfolding create file_storage_bucket.Documents.Exec.◌>>=◌
    file_storage_bucket.Documents.Create.lacks_grant String_discrete
    file_storage_bucket.Documents.Create.scope_invalid
    file_storage_bucket.Documents.Create.effective_scope
    file_storage_bucket.Documents.Create.input_invalid
    file_storage_bucket.Documents.Create.normalise file_storage_bucket.Text.to_upper
    file_storage_bucket.Text.trim_space file_storage_bucket.Text.base
    file_storage_bucket.Text.is_sha256 file_storage_bucket.Text.to_lower
    file_storage_bucket.Documents.Access.get_idempotent file_storage_bucket.Documents.Exec.statement
    file_storage_bucket.Documents.Exec.transaction file_storage_bucket.Documents.Tables.insert_row
    file_storage_bucket.Documents.Tables.row_ok file_storage_bucket.Documents.Create.new_row
    file_storage_bucket.Documents.Create.new_id file_storage_bucket.Text.hex_encode
    file_storage_bucket.Documents.Audit.record_event
    file_storage_bucket.Documents.Tables.append_event
calls_after = refl

create-repeated_example :
    create s staff deed (9 ∷ []) after_first
    ≡ (ok (with_object made_row, link 8 key), tick (tick after_first))
create-repeated_example =
    create-repeated s staff deed (7 ∷ []) (9 ∷ []) empty after_first after_first
      (with_object made_row) (link 6 key) (link 8 key) (λ expires now. refl) first_run refl refl
      (rw calls_after second_link)
