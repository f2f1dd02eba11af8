-- ===== src/Delegated/BankAccount/Explicit.antt =====
-- authorizeBankAccount: the queries that pass, pair by pair.
use file_storage_bucket.Common.{
  ◌≤◌, String, len, Option, none, some, List, [], ◌∷◌, length, ◌≡◌, ◌≢◌, ◌⊎◌, inl, inr, refl, sym,
  ◌∙◌, ap, subst, arith, Bool-cases, Option-cases, In, ◌==◌, if◌then◌else◌, nat_eq,
}
use file_storage_bucket.Text.{trim_space}
use file_storage_bucket.Delegated.BankAccount.Parsing.{
  Query, AccountScope, explicit, lookup, delete, tenant_of, explicit_scope, digest_scope,
  parse_scope,
}

-- besides a digest, the query is one pair: one tenant, or the lender
pub record IsExplicit (q : Query) (asked : AccountScope) : Type 0 where
  pub lone :
      ((asked.tenant ≢ "")
        × (trim_space asked.tenant ≡ asked.tenant)
        × (len asked.tenant ≤ 128)
        × (asked.rest ≡ ("tenant_id", asked.tenant ∷ []) ∷ []))
      ⊎ ((asked.tenant ≡ "") × (asked.rest ≡ ("owner_scope", "lender" ∷ []) ∷ []))
  pub digest :
      ((asked.digest ≡ "") × ((values : List String) → ¬ In ("sha256", values) q))
      ⊎ In ("sha256", asked.digest ∷ []) q
  pub kept : (x : String × List String) → In x asked.rest → In x q
  pub only : (x : String × List String) → x.0 ≢ "sha256" → In x q → In x asked.rest

lookup-In :
    (name : String) (values : List String) (q : Query)
    → lookup name q ≡ some values
    → In (name, values) q
unfolding lookup
lookup-In name values [] h = cc
lookup-In name values ((n, vs) ∷ q) h = elim (Bool-cases (n == name)) [
  | inl here ↦
      let same : n ≡ name = ground arith in
      let is : vs ≡ values = ground arith in inl (rw (same, is) refl)
  | inr there ↦ inr (lookup-In name values q (ground arith))
]

lookup-none :
    (name : String) (values : List String) (q : Query)
    → lookup name q ≡ none
    → ¬ In (name, values) q
unfolding lookup
lookup-none name values [] h k = k
lookup-none name values ((n, vs) ∷ q) h (inl e) =
    let same : name ≡ n = ap (λ x. x.0) e in ground arith
lookup-none name values ((n, vs) ∷ q) h (inr k) = lookup-none name values q (ground arith) k

In-delete : (name : String) (q : Query) (x : String × List String) → In x (delete name q) → In x q
unfolding delete
In-delete name [] x h = h
In-delete name ((n, vs) ∷ q) x h = elim (Bool-cases (n == name)) [
  | inl here ↦
      let same : delete name ((n, vs) ∷ q) ≡ delete name q = ground arith in
      inr (In-delete name q x (subst (In x) same h))
  | inr there ↦
      let same : delete name ((n, vs) ∷ q) ≡ (n, vs) ∷ delete name q = ground arith in
      elim (subst (In x) same h) [ inl e ↦ inl e | inr k ↦ inr (In-delete name q x k) ]
]

delete-In :
    (name : String) (q : Query) (x : String × List String)
    → x.0 ≢ name
    → In x q
    → In x (delete name q)
unfolding delete
delete-In name [] x n h = h
delete-In name ((m, vs) ∷ q) x n (inr h) =
    let rest = delete-In name q x n h in
    elim (Bool-cases (m == name)) [ inl here ↦ rw here rest | inr there ↦ rw there (inr rest) ]
delete-In name ((m, vs) ∷ q) x n (inl e) = elim (Bool-cases (m == name)) [
  | inl here ↦ absurd (n (ap (λ y. y.0) e ∙ ground arith))
  | inr there ↦ rw there (inl e)
]

lone_pair : (q : Query) (x : String × List String) → length q ≡ 1 → In x q → q ≡ x ∷ []
lone_pair [] x n h = absurd h
lone_pair (y ∷ []) x n (inl e) = ap (λ z. z ∷ []) (sym e)
lone_pair (y ∷ []) x n (inr h) = absurd h
lone_pair (y ∷ z ∷ q) x n h = absurd (omega arith)

tenant_of-cases :
    (o : Option (List String)) (q : Query) (tenant : String)
    → tenant_of o q ≡ some tenant
    → ((o ≡ some (tenant ∷ [])) × (tenant ≢ "") × (trim_space tenant ≡ tenant) × (len tenant ≤ 128))
      ⊎ ((o ≡ none) × (tenant ≡ "") × (lookup "owner_scope" q ≡ some ("lender" ∷ [])))
unfolding tenant_of
tenant_of-cases (some (value ∷ [])) q tenant h =
    inl (ground arith, ground arith, ground arith, ground arith)
tenant_of-cases (some []) q tenant h = cc
tenant_of-cases (some (a ∷ b ∷ values)) q tenant h = cc
tenant_of-cases none q tenant h = inr (owner (lookup "owner_scope" q) refl h)
  where
    owner :
        (l : Option (List String))
        → lookup "owner_scope" q ≡ l
        → elim l [ some (value ∷ []) ↦ if value == "lender" then some "" else none | _ ↦ none ]
          ≡ some tenant
        → (◌≡◌ {A = Option (List String)} none none)
          × (tenant ≡ "")
          × (lookup "owner_scope" q ≡ some ("lender" ∷ []))
    owner none e k = cc
    owner (some []) e k = cc
    owner (some (value ∷ [])) e k = (refl, ground arith, ground arith)
    owner (some (a ∷ b ∷ values)) e k = cc

-- what is left of the query once the digest is gone
record IsLone (digest : String) (q : Query) (asked : AccountScope) : Type 0 where
  same_digest : asked.digest ≡ digest
  rest : asked.rest ≡ q
  lone :
      ((asked.tenant ≢ "")
        × (trim_space asked.tenant ≡ asked.tenant)
        × (len asked.tenant ≤ 128)
        × (asked.rest ≡ ("tenant_id", asked.tenant ∷ []) ∷ []))
      ⊎ ((asked.tenant ≡ "") × (asked.rest ≡ ("owner_scope", "lender" ∷ []) ∷ []))

explicit_scope-IsLone :
    (digest : String) (q : Query) (asked : AccountScope)
    → explicit_scope digest q ≡ explicit asked
    → IsLone digest q asked
unfolding explicit_scope
explicit_scope-IsLone digest q asked h = elim (Option-cases (tenant_of (lookup "tenant_id" q) q)) [
  | inl missing ↦ absurd (ground arith)
  | inr (tenant, found) ↦ elim (Bool-cases (nat_eq (length q) 1)) [
    | inr more ↦ absurd (ground arith)
    | inl one ↦
        let is : asked ≡ record { digest = digest; tenant = tenant; rest = q } = ground arith in
        let single : length q ≡ 1 = ground arith in
        let of_tenant = ap AccountScope.tenant is in
        let of_rest = ap AccountScope.rest is in
        record {
          same_digest = ap AccountScope.digest is;
          rest = of_rest;
          lone = elim (tenant_of-cases (lookup "tenant_id" q) q tenant found) [
            | inl (at, named, trimmed, short) ↦ rw of_tenant (
                inl (
                  named,
                  trimmed,
                  short,
                  of_rest
                      ∙ lone_pair q ("tenant_id", tenant ∷ []) single
                          (lookup-In "tenant_id" (tenant ∷ []) q at),
                ))
            | inr (at, unnamed, lender) ↦ inr (
              of_tenant ∙ unnamed,
              of_rest
                  ∙ lone_pair q ("owner_scope", "lender" ∷ []) single
                      (lookup-In "owner_scope" ("lender" ∷ []) q lender),
            )
          ];
        }
  ]
]

digest_scope-IsExplicit :
    (o : Option (List String)) (q : Query) (asked : AccountScope)
    → lookup "sha256" q ≡ o
    → digest_scope o q ≡ explicit asked
    → IsExplicit q asked
unfolding digest_scope
digest_scope-IsExplicit none q asked at h =
    let l = explicit_scope-IsLone "" q asked h in
    record {
      lone = l.lone;
      digest = inl (l.same_digest, λ values. lookup-none "sha256" values q at);
      kept = λ x i. subst (In x) l.rest i;
      only = λ x n i. subst (In x) (sym l.rest) i;
    }
digest_scope-IsExplicit (some []) q asked at h = cc
digest_scope-IsExplicit (some (value ∷ [])) q asked at h =
    let l = explicit_scope-IsLone value (delete "sha256" q) asked h in
    record {
      lone = l.lone;
      digest = inr (
          subst (λ d. In ("sha256", d ∷ []) q) (sym l.same_digest)
            (lookup-In "sha256" (value ∷ []) q at));
      kept = λ x i. In-delete "sha256" q x (subst (In x) l.rest i);
      only = λ x n i. subst (In x) (sym l.rest) (delete-In "sha256" q x n i);
    }
digest_scope-IsExplicit (some (a ∷ b ∷ values)) q asked at h = cc

-- a query that names its scope was read, and it is as `IsExplicit` says
pub parse_scope-IsExplicit :
    (o : Option Query) (asked : AccountScope)
    → parse_scope o ≡ explicit asked
    → (q : Query) × (o ≡ some q) × IsExplicit q asked
unfolding parse_scope
parse_scope-IsExplicit none asked h = cc
parse_scope-IsExplicit (some q) asked h =
    (q, refl, digest_scope-IsExplicit (lookup "sha256" q) q asked refl h)
