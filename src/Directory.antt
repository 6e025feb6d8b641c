-- ===== src/Directory.antt =====
-- app/adapters/outbound/auth_profile.py: the audience of a started festival. What `jwt.encode` and
-- the HTTP client do are parameters.
pub mod Token
mod Tests
use festival_service.Prelude.{
  ℕ, ◌+◌, ◌&&◌, nat_eq, code, String, Option, none, some, List, [], ◌∷◌, leb, if◌then◌else◌,
}
use festival_service.Json.{Json, int, text, arr, Items, nil, cons, Fields, end, field, str}
use festival_service.Int.{pos}
use festival_service.Text.{is_empty, f_string}
use festival_service.Errors.{Exception, Result, ok, err, value_error}
use festival_service.Runtime.{Runtime}

-- How the request to auth-profile-service ends: with an error of httpx, with another exception that
-- is raised before it is sent, or with a response. A body is `none` where it is no JSON.
pub data Lookup : Type 0 where
  timed_out failed : Lookup
  unsent : Exception → Lookup
  response : ℕ → Option Json → Lookup

-- What `HttpAuthProfileDirectory.__init__` keeps.
pub record Client : Type 0 where
  pub base_url : String
  pub jwt_secret : String
  pub jwt_algorithm : String
  pub jwt_issuer : String
  pub jwt_audience : String
  pub service_name : String

-- `text.rstrip("/")`
unfoldable pub rstrip_slash : String → String
unfolding is_empty
rstrip_slash String.[] = ""
rstrip_slash (String.◌∷◌ c s) =
    let rest = rstrip_slash s in
    if nat_eq (code c) b'/' && is_empty rest then "" else String.◌∷◌ c rest

unfoldable pub new_client : String → String → String → String → String → String → Client
unfolding rstrip_slash
new_client base_url jwt_secret jwt_algorithm jwt_issuer jwt_audience service_name = record {
  base_url = rstrip_slash base_url;
  jwt_secret = jwt_secret;
  jwt_algorithm = jwt_algorithm;
  jwt_issuer = jwt_issuer;
  jwt_audience = jwt_audience;
  service_name = service_name;
}

-- `if value: claims[key] = value`, for a key that is set after all others
unfoldable pub claim_if : String → String → Fields → Fields
unfolding is_empty
claim_if key value rest = if is_empty value then rest else field key (text value) rest

-- The claims of `_service_token`; `now` is the time of the call in whole seconds, as `jwt.encode`
-- writes a datetime.
unfoldable pub service_claims : Client → ℕ → Fields
unfolding claim_if
service_claims client now = field "sub" (text client.service_name) (
    field "role" (text "SUPPORT") (
      field "typ" (text "access") (
        field "scopes" (arr (cons (text "users:read") nil)) (
          field "iat" (int (pos now)) (
            field "exp" (int (pos (now + 120)))
              (claim_if "iss" client.jwt_issuer (claim_if "aud" client.jwt_audience end)))))))

-- The request of `active_user_ids`.
pub record HttpRequest : Type 0 where
  pub base_url : String
  pub path : String
  pub params : List (String × String)
  pub headers : List (String × String)

module _ (encode : Fields → String → String → Result String) where
  -- `_service_token`
  unfoldable pub service_token : Client → ℕ → Result String
  unfolding service_claims
  service_token client now =
      encode (service_claims client now) client.jwt_secret client.jwt_algorithm

  unfoldable pub request_with : Client → String → HttpRequest
  request_with client token = record {
    base_url = client.base_url;
    path = "/v1/admin/users/ids";
    params = ("status", "ACTIVE") ∷ [];
    headers = ("Authorization", f_string ("Bearer " ∷ token ∷ [])) ∷ [];
  }

  -- The `try` of `active_user_ids`, whose handlers are for errors of httpx only.
  unfoldable pub lookup : (HttpRequest → Lookup) → Client → ℕ → Lookup
  unfolding service_token request_with f_string
  lookup get client now = elim (service_token client now) [
    | err e ↦ unsent e
    | ok token ↦ get (request_with client token)
  ]

unfoldable pub ids_of : Runtime → Items → List String
ids_of rt nil = []
ids_of rt (cons x xs) = str rt.repr x ∷ ids_of rt xs

unfoldable pub ids_of_body : Runtime → Option Json → Result (List String)
unfolding ids_of
ids_of_body rt none = err value_error
ids_of_body rt (some (arr xs)) = ok (ids_of rt xs)
ids_of_body rt (some body) = ok []

-- `active_user_ids`. `response.json()` stands outside the `try`.
unfoldable pub active_user_ids : Runtime → Lookup → Result (List String)
unfolding ids_of_body
active_user_ids rt timed_out = ok []
active_user_ids rt failed = ok []
active_user_ids rt (unsent e) = err e
active_user_ids rt (response status body) = if leb 400 status then ok [] else ids_of_body rt body
