-- ===== src/Delegated/BankAccount/Parsing.antt =====
-- authorizeBankAccount: which digest, and which tenant or the lender, the query of a request names.
use file_storage_bucket.Common.{
  String, len, Option, none, some, not, ◌&&◌, List, [], ◌∷◌, length, leb, nat_eq, ◌==◌,
  if◌then◌else◌,
}
use file_storage_bucket.Text.{trim_space}

abbrev pub Query : Type 0
Query = List (String × List String)

-- what the query says: the digest, the tenant or the lender, and the query without the digest
pub record AccountScope : Type 0 where
  pub digest : String
  pub tenant : String
  pub rest : Query

-- q[name], and whether it exists
unfoldable pub lookup : String → Query → Option (List String)
lookup name [] = none
lookup name ((n, values) ∷ q) =
    let later = lookup name q in if n == name then some values else later

-- q.Del(name)
unfoldable pub delete : String → Query → Query
delete name [] = []
delete name ((n, values) ∷ q) =
    let later = delete name q in if n == name then later else (n, values) ∷ later

-- the tenant of the query, "" for the lender; none where the scope is not explicit
unfoldable pub tenant_of : Option (List String) → Query → Option String
unfolding lookup
tenant_of (some (value ∷ [])) q =
    if not (value == "") && trim_space value == value && leb (len value) 128
    then some value
    else none
tenant_of (some values) q = none
tenant_of none q = elim (lookup "owner_scope" q) [
  | some (value ∷ []) ↦ if value == "lender" then some "" else none
  | _ ↦ none
]

-- the two ways in which the query fails, and what it says
pub data Parsed : Type 0 where
  malformed : Parsed
  ambiguous : Parsed
  explicit : AccountScope → Parsed

-- valid := len(q) == 1 and what follows
unfoldable pub explicit_scope : String → Query → Parsed
unfolding tenant_of
explicit_scope digest q = elim (tenant_of (lookup "tenant_id" q) q) [
  | none ↦ ambiguous
  | some tenant ↦
      if nat_eq (length q) 1
      then explicit (record { digest = digest; tenant = tenant; rest = q })
      else ambiguous
]

unfoldable pub digest_scope : Option (List String) → Query → Parsed
unfolding explicit_scope delete
digest_scope none q = explicit_scope "" q
digest_scope (some (digest ∷ [])) q = explicit_scope digest (delete "sha256" q)
digest_scope (some values) q = malformed

-- url.ParseQuery and the checks of the query
unfoldable pub parse_scope : Option Query → Parsed
unfolding digest_scope
parse_scope none = ambiguous
parse_scope (some q) = digest_scope (lookup "sha256" q) q
