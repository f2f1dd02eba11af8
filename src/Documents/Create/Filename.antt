-- ===== src/Documents/Create/Filename.antt =====
-- Service.Create: the file name that it validates.
use file_storage_bucket.Common.{not, ◌&&◌, ◌≡◌, ◌≢◌, inl, inr, Bool-cases, subst, sym, arith, ◌==◌}
use file_storage_bucket.Text.{base, trim_space}
use file_storage_bucket.Text.Laws.{base-ne-empty}
use file_storage_bucket.Documents.Types.{CreateInput, Service}
use file_storage_bucket.Documents.Create.{normalise, trimmed, owned}

owned-filename : (input : CreateInput) → (owned input).filename ≡ input.filename
unfolding owned
owned-filename input = elim (Bool-cases (input.owner_type == "" && not (input.party_id == ""))) [
  | inl unowned ↦ ground arith
  | inr has_owner ↦ ground arith
]

-- The file name of a normalised input is the base name of the trimmed one, and is never empty: the
-- validation never refuses an input for an empty file name.
pub normalise-filename :
    (s : Service) (input : CreateInput)
    → ((normalise s input).filename ≡ base (trim_space input.filename))
      × ((normalise s input).filename ≢ "")
unfolding normalise trimmed
normalise-filename s input =
    let is : (normalise s input).filename ≡ base (trim_space input.filename) =
      owned-filename (trimmed s input) in
    (is, subst (λ name. name ≢ "") (sym is) (base-ne-empty (trim_space input.filename)))
