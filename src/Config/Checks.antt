-- ===== src/Config/Checks.antt =====
-- What a configuration that app/platform/config.py accepts is good for.
use festival_service.Prelude.{
  String, Bool, true, false, ◌&&◌, ◌||◌, ◌==◌, ◌≡◌, refl, sym, subst, ◌∙◌, ap, inl, inr, ltb,
  Bool-cases, arith,
}
use festival_service.Text.{is_empty, length, starts_with, occurs}
use festival_service.Errors.{ok, Result-cases}
use festival_service.Auth.{Verifier, new_verifier}
use festival_service.Config.{
  Config, is_production, check_keys, check_secrets, known_environment, load,
}

module _ (lower : String → String) where
  check_keys-new_verifier :
      (c : Config)
      → check_keys lower c ≡ ok tt
      → (v : Verifier) × (new_verifier c.jwt_secret c.jwt_public_key c.jwt_algorithm c.jwt_issuer
            c.jwt_audience
          ≡ ok v)
        × (v.algorithm ≡ c.jwt_algorithm)
  unfolding check_keys new_verifier
  check_keys-new_verifier c passed = elim (Bool-cases (starts_with "HS" c.jwt_algorithm)) [
    | inl hs ↦ elim (Bool-cases (is_empty c.jwt_secret)) [
      | inl blank ↦ ground arith
      | inr given ↦ (
        record {
          key = c.jwt_secret;
          algorithm = c.jwt_algorithm;
          issuer = c.jwt_issuer;
          audience = c.jwt_audience;
        },
        rw (new_verifier, hs, given) refl,
        refl,
      )
    ]
    | inr other ↦ elim (Bool-cases (starts_with "RS" c.jwt_algorithm)) [
      | inl rs ↦ elim (Bool-cases (is_empty c.jwt_public_key)) [
        | inl blank ↦ ground arith
        | inr given ↦ (
          record {
            key = c.jwt_public_key;
            algorithm = c.jwt_algorithm;
            issuer = c.jwt_issuer;
            audience = c.jwt_audience;
          },
          rw (new_verifier, other, rs, given) refl,
          refl,
        )
      ]
      | inr unknown ↦ ground arith
    ]
  ]

  check_keys-secret :
      (c : Config)
      → check_keys lower c ≡ ok tt
      → (starts_with "HS" c.jwt_algorithm
          && (ltb (length c.jwt_secret) 32
              || (is_production c && occurs "change-me" (lower c.jwt_secret))))
        ≡ false
  unfolding check_keys
  check_keys-secret c passed = ground arith

  check_secrets_ok :
      (r c : Config)
      → check_secrets lower r ≡ ok c
      → (r ≡ c) × (check_keys lower r ≡ ok tt) × (is_empty r.database_url ≡ false)
  unfolding check_secrets
  check_secrets_ok r c accepted = elim (Result-cases (check_keys lower r)) [
    | inr (e, bad) ↦ ground arith
    | inl (u, good) ↦ elim (Bool-cases (is_empty r.database_url)) [
      | inl blank ↦ ground arith
      | inr given ↦
          let same : ok r ≡ ok c = rw (check_secrets, good, given) at accepted in (cc, good, given)
    ]
  ]

  abbrev is_known : String → Bool
  is_known e = e == "local" || e == "development" || e == "staging" || e == "production"

  known_environment_ok :
      (value e : String) → known_environment lower value ≡ ok e → is_known e ≡ true
  unfolding known_environment
  known_environment_ok value e accepted = elim (Bool-cases (is_known (lower value))) [
    | inl known ↦ let same : lower value ≡ e = ground arith in rw same at known
    | inr unknown ↦ ground arith
  ]

  -- A configuration that is accepted names one of the four environments and a database, and its
  -- keys make a verifier of its algorithm. With a symmetric algorithm its secret has at least 32
  -- characters, and in production it does not hold the development placeholder.
  pub load_lem :
      (raw c : Config)
      → load lower raw ≡ ok c
      → ((v : Verifier) × (new_verifier c.jwt_secret c.jwt_public_key c.jwt_algorithm c.jwt_issuer
              c.jwt_audience
            ≡ ok v)
          × (v.algorithm ≡ c.jwt_algorithm))
        × ((starts_with "HS" c.jwt_algorithm
              && (ltb (length c.jwt_secret) 32
                  || (is_production c && occurs "change-me" (lower c.jwt_secret))))
            ≡ false)
        × (is_empty c.database_url ≡ false)
        × ((c.environment == "local"
              || c.environment == "development"
              || c.environment == "staging"
              || c.environment == "production")
            ≡ true)
  unfolding load check_secrets known_environment
  load_lem raw c accepted = elim (Result-cases (known_environment lower raw.environment)) [
    | inr (e, unknown) ↦ ground arith
    | inl (environment, known) ↦
        let (same, keys, database) =
          check_secrets_ok (record raw { environment = environment }) c
            (rw (load, known) at accepted) in
        let here : environment ≡ c.environment = ap (λ (x : Config). x.environment) same in
        let passed : check_keys lower c ≡ ok tt =
          subst (λ (x : Config). check_keys lower x ≡ ok tt) same keys in
        (
          check_keys-new_verifier c passed,
          check_keys-secret c passed,
          ap (λ (x : Config). is_empty x.database_url) (sym same) ∙ database,
          subst (λ e. is_known e ≡ true) here
              (known_environment_ok raw.environment environment known),
        )
  ]
