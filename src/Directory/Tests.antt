-- ===== src/Directory/Tests.antt =====
-- A token and a request to the directory.
use festival_service.Prelude.{String, ◌≡◌, refl, some, [], ◌∷◌}
use festival_service.Json.{Fields}
use festival_service.Errors.{value_error, Result, ok, err}
use festival_service.Samples.{rt}
use festival_service.Auth.{Decoded, decoded, support, admin, guard, role_required}
use festival_service.Directory.{
  Client, new_client, service_claims, service_token, response, unsent, lookup,
}
use festival_service.Directory.Token.{Signs, the_service, service_token_lem}

abbrev client : Client
client = record {
  base_url = "http://auth:8000";
  jwt_secret = "0123456789abcdef0123456789abcdef";
  jwt_algorithm = "HS256";
  jwt_issuer = "arcadia";
  jwt_audience = "";
  service_name = "festival-service";
}

-- The slashes at the end of the address are dropped.
client_of :
    new_client "http://auth:8000//" "0123456789abcdef0123456789abcdef" "HS256" "arcadia" ""
      "festival-service"
    ≡ client
unfolding new_client
client_of = refl

-- A signer that always makes one token.
abbrev encode : Fields → String → String → Result String
encode claims secret algorithm = ok "t7"

abbrev decode : String → Decoded
decode token = decoded "festival-service" (service_claims client 1000)

encode-Signs : Signs encode decode client 1000
encode-Signs = record { read_back = λ token made. refl }

service_token_lem_example :
    (guard rt (some decode) (some "t7") [] ≡ ok (the_service client))
    × (guard rt (some decode) (some "t7") (support ∷ admin ∷ []) ≡ ok (the_service client))
    × (guard rt (some decode) (some "t7") (admin ∷ []) ≡ err (role_required (admin ∷ [])))
unfolding service_token
service_token_lem_example =
    service_token_lem rt encode decode client 1000 encode-Signs "t7" refl refl refl

-- A signer that refuses an empty key.
abbrev strict : Fields → String → String → Result String
strict claims secret algorithm = err value_error

-- No request is sent without a token.
unsigned :
    lookup strict (λ r. response 200 (some (festival_service.Json.null))) client 1000
    ≡ unsent value_error
unfolding lookup
unsigned = refl
