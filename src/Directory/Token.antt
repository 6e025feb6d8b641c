-- ===== src/Directory/Token.antt =====
-- The service's own token, and this service's guard in app/platform/auth.py.
use festival_service.Prelude.{ℕ, String, ◌≡◌, refl, inl, inr, false, some, [], ◌∷◌, Bool-cases}
use festival_service.Text.{is_empty}
use festival_service.Json.{Fields}
use festival_service.Errors.{Result, ok, err}
use festival_service.Runtime.{Runtime}
use festival_service.Auth.{
  Principal, Decoded, decoded, support, admin, guard, verify, principal_of, current_principal,
  require, role_required,
}
use festival_service.Directory.{Client, claim_if, service_claims, service_token}

-- `jwt.decode` gives back what `jwt.encode` has signed with the key and the algorithm of the
-- client, while the token has not expired.
pub record Signs (encode : Fields → String → String → Result String) (decode : String → Decoded)
    (client : Client) (now : ℕ) : Type 0 where
  pub read_back :
      (token : String)
      → encode (service_claims client now) client.jwt_secret client.jwt_algorithm ≡ ok token
      → decode token ≡ decoded client.service_name (service_claims client now)

-- The caller that the token names.
abbrev pub the_service : Client → Principal
the_service client = record {
  user_id = client.service_name;
  role = support;
  email = "";
  scopes = "users:read" ∷ [];
}

principal_of-service_claims :
    (rt : Runtime) (client : Client) (now : ℕ)
    → is_empty client.service_name ≡ false
    → principal_of rt client.service_name (service_claims client now) ≡ ok (the_service client)
unfolding principal_of service_claims claim_if
principal_of-service_claims rt client now named = elim (Bool-cases (is_empty client.jwt_issuer)) [
  | inl no_issuer ↦ elim (Bool-cases (is_empty client.jwt_audience)) [
    | inl no_audience ↦ rw (named, no_issuer, no_audience) refl
    | inr audience ↦ rw (named, no_issuer, audience) refl
  ]
  | inr issuer ↦ elim (Bool-cases (is_empty client.jwt_audience)) [
    | inl no_audience ↦ rw (named, issuer, no_audience) refl
    | inr audience ↦ rw (named, issuer, audience) refl
  ]
]

module _ (rt : Runtime) (encode : Fields → String → String → Result String)
    (decode : String → Decoded) (client : Client) (now : ℕ)
    (signs : Signs encode decode client now) where
  -- A token that the service makes for itself names a SUPPORT user with the service's name and the
  -- scope users:read: a guard that asks for no role, or for SUPPORT or ADMIN, lets it in as that
  -- user, and the guard of the routes for administrators refuses it with ROLE_REQUIRED. Here the
  -- token must be one that `jwt.decode` reads back, and neither it nor the name may be empty.
  pub service_token_lem :
      (token : String)
      → is_empty client.service_name ≡ false
      → is_empty token ≡ false
      → service_token encode client now ≡ ok token
      → (guard rt (some decode) (some token) [] ≡ ok (the_service client))
        × (guard rt (some decode) (some token) (support ∷ admin ∷ []) ≡ ok (the_service client))
        × (guard rt (some decode) (some token) (admin ∷ []) ≡ err (role_required (admin ∷ [])))
  unfolding guard current_principal verify require service_token
  service_token_lem token named given made =
      let read = signs.read_back token made in
      let known = principal_of-service_claims rt client now named in
      (rw (given, read, known) refl, rw (given, read, known) refl, rw (given, read, known) refl)
