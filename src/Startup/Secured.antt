-- ===== src/Startup/Secured.antt =====
-- With what a server starts to listen, and whom it admits.
use file_storage_bucket.Common.{
  String, true, false, some, [], ◌∷◌, ◌==◌, ◌≡◌, ◌≢◌, ◌⊎◌, inl, inr, refl, sym, ap, subst,
  String_discrete,
}
use file_storage_bucket.Documents.Types.{Result, ok}
use file_storage_bucket.Auth.{
  Claims, Principal, Caller, admitted, IsVouched, authenticate, authenticate-IsVouched,
}
use file_storage_bucket.PartyClient.{exists}
use file_storage_bucket.Text.{trim_right_slashes}
use file_storage_bucket.Config.{Config, loaded, load, IsUsable, load-IsUsable}
use file_storage_bucket.Objectstore.{ensure_bucket}
use file_storage_bucket.Startup.{
  Credentials, Host, Server, serving, parties_of, new_store, new_service, start, claims_of,
  admission,
}
use file_storage_bucket.Startup.Inversion.{
  HasBucket, ensure_bucket-HasBucket, new_party-eq-ok, start_server-eq-serving,
  start_parties-eq-serving, start_objects-eq-serving, start_database-eq-serving,
  start_loaded-eq-serving,
}

-- the client of the party directory: with tokens of the configured credentials, or without any
abbrev pub credentials_of : Config → Credentials
credentials_of c = record {
  client_id = c.party_client_id;
  client_secret = c.party_client_secret;
  token_url = c.party_token_url;
  scopes = "party.read" ∷ [];
}

-- what a listening server was started with
pub record IsSecured (h : Host) (v : Server) : Type 0 where
  pub read : load h.getenv ≡ loaded v.config
  pub usable : IsUsable v.config
  pub database : h.open_pool v.config.database_url ≡ ok v.service.db
  pub store : HasBucket (new_store h v.config)
  pub party :
      (v.service.party ≡ (record {
        exists = λ at. exists (record {
          base = trim_right_slashes v.config.party_base_url;
          get = h.get (some (credentials_of v.config)) at;
          path_escape = h.path_escape;
          unmarshal = h.unmarshal;
        });
      })
        × (v.config.party_token_url ≢ "")
        × (v.config.party_client_id ≢ "")
        × (v.config.party_client_secret ≢ ""))
      ⊎ (v.config.environment ≡ "local")
  pub verified :
      ((make : String → String → Result Claims) × (h.new_provider v.config.oidc_issuer ≡ ok make)
        × (v.verifier ≡ some (make v.config.oidc_audience))
        × (v.config.auth_mode ≡ "oidc"))
      ⊎ (v.config.environment ≡ "local")

module _ (h : Host) where
  -- authentication is disabled in the local environment only, and otherwise it is OIDC
  not_oidc : (c : Config) → IsUsable c → c.auth_mode ≢ "oidc" → c.environment ≡ "local"
  not_oidc c usable other = elim usable.authentication [
    | inl (_, local) ↦ local
    | inr (oidc, _, _) ↦ absurd (other oidc)
  ]

  oidc_enabled : (mode : String) → mode ≡ "oidc" → (mode == "disabled") ≡ false
  unfolding String_discrete
  oidc_enabled mode oidc = rw oidc refl

  disabled_local :
      (c : Config) → IsUsable c → (c.auth_mode == "disabled") ≡ true → c.environment ≡ "local"
  disabled_local c usable disabled = elim usable.authentication [
    | inl (_, local) ↦ local
    | inr (oidc, _, _) ↦ let enabled = oidc_enabled c.auth_mode oidc in absurd cc
  ]

  -- The server listens only after its configuration was read whole, the database was opened and the
  -- bucket was found, made or owned. Outside the local environment it has the verifier of the
  -- configured issuer and audience, and its party directory is called with tokens of a complete set
  -- of credentials.
  pub start-IsSecured : (v : Server) → start h ≡ serving v → IsSecured h v
  unfolding start
  start-IsSecured v k =
      let (c, read, k1) = start_loaded-eq-serving h (load h.getenv) v k in
      let (db, opened, k2) = start_database-eq-serving h c (h.open_pool c.database_url) v k1 in
      let (bucket, k3) = start_objects-eq-serving h c db (ensure_bucket (new_store h c) 0) v k2 in
      let (client, parties, k4) = start_parties-eq-serving h c db _ v k3 in
      let (o, is, verifier) = start_server-eq-serving h c (new_service h c db client) v k4 in
      let (_, usable) = load-IsUsable h.getenv c read in
      subst (IsSecured h) (sym is) (record {
        read = read;
        usable = usable;
        database = opened;
        store = ensure_bucket-HasBucket (new_store h c) bucket;
        party =
            elim (new_party-eq-ok h c.party_base_url c.party_token_url c.party_client_id
              c.party_client_secret (c.auth_mode == "disabled") client parties) [
                | inl (same, url, id, secret) ↦ inl (ap (parties_of h) same, url, id, secret)
                | inr local ↦ inr (disabled_local c usable local)
              ];
        verified = elim verifier [
          | inl known ↦ inl known
          | inr other ↦ inr (not_oidc c usable other)
        ];
      })

  -- A server that listens outside the local environment admits a principal only for a bearer token
  -- that the provider of the configured issuer accepts for the configured audience.
  pub admission-IsVouched :
      (v : Server) (r : Caller) (p : Principal)
      → start h ≡ serving v
      → v.config.environment ≢ "local"
      → admission v r ≡ admitted p
      → (make : String → String → Result Claims) × (h.new_provider v.config.oidc_issuer ≡ ok make)
        × IsVouched (make v.config.oidc_audience) r p
  unfolding admission claims_of
  admission-IsVouched v r p k outside e = elim (start-IsSecured v k).verified [
    | inr local ↦ absurd (outside local)
    | inl (make, provided, is, oidc) ↦ (
      make,
      provided,
      authenticate-IsVouched v.config.environment (make v.config.oidc_audience) r p (
          subst (λ o. authenticate false v.config.environment (claims_of o) r ≡ admitted p) is
            (subst (λ b. authenticate b v.config.environment (claims_of v.verifier) r ≡ admitted p)
              (oidc_enabled v.config.auth_mode oidc) e)),
    )
  ]
