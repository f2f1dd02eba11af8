-- ===== src/Delegated/Streamed.antt =====
-- What a content route streams, and what a route that restricts the purpose returns.
use file_storage_bucket.Common.{
  ℕ, ◌≤◌, String, not, List, length, take, length-take_bound, ◌≡◌, ap, sym, ◌∙◌, subst, arith, ◌==◌,
}
use file_storage_bucket.Documents.Types.{Document, Service, ok, not_found}
use file_storage_bucket.Documents.Tables.{Row, Tables}
use file_storage_bucket.Documents.Exec.{World, Action, pure, raise_if, ◌>>◌}
use file_storage_bucket.Documents.Exec.Inversion.{>>=-eq-ok, guard_then}
use file_storage_bucket.Documents.Access.{scanned}
use file_storage_bucket.Documents.Evidence.Opened.{IsOpened}
use file_storage_bucket.Http.{Payload, streamed}
use file_storage_bucket.Delegated.{purposed, clipped}

-- the bytes of a row's object, and no more than its size, were streamed; no row changed
pub record IsStreamed (s : Service) (row : Row) (x : Payload) (t u : Tables) : Type 0 where
  pub body : List ℕ
  pub opened : IsOpened s row body t u
  pub shown : x ≡ streamed (take row.size_bytes body)
  pub bounded : length (take row.size_bytes body) ≤ row.size_bytes

pub purposed-eq-ok :
    (purpose : String) (m : Action Document) (w w' : World) (d : Document)
    → purposed purpose m w ≡ (ok d, w')
    → (m w ≡ (ok d, w')) × (d.purpose ≡ purpose)
unfolding purposed
purposed-eq-ok purpose m w w' d h =
    let (x, v, ran, rest) =
      >>=-eq-ok m (λ x. raise_if (not (x.purpose == purpose)) not_found >> pure x) w w' d h in
    let (passed, done) = guard_then (not (x.purpose == purpose)) not_found (pure x) v w' d rest in
    let is : x ≡ d = cc in
    let purposed : x.purpose ≡ purpose = ground arith in
    (cc, ap Document.purpose (sym is) ∙ purposed)

pub streamed-IsStreamed :
    (s : Service) (row : Row) (d : Document) (body : List ℕ) (x : Payload) (t u : Tables)
    → d ≡ scanned row
    → x ≡ streamed (clipped (d, body))
    → IsOpened s row body t u
    → IsStreamed s row x t u
streamed-IsStreamed s row d body x t u shown is opened = record {
  body = body;
  opened = opened;
  shown = is ∙ ap (λ y. streamed (clipped (y, body))) shown;
  bounded = length-take_bound row.size_bytes body;
}

-- the check that opens finds the row that an earlier check, which kept the rows, had found
pub IsOpened-moved :
    (s : Service) (row row' : Row) (body : List ℕ) (t t' u : Tables)
    → row ≡ row'
    → t.rows ≡ t'.rows
    → IsOpened s row body t u
    → IsOpened s row' body t' u
IsOpened-moved s row row' body t t' u is kept o = record {
  opener = o.opener;
  can_open = o.can_open;
  at = o.at;
  opened = subst (λ r. o.opener o.at (Row.object_key r) ≡ ok body) is o.opened;
  same_rows = o.same_rows ∙ kept;
}
