-- ===== src/Auth.antt =====
-- app/platform/auth.py: roles, the verifier of access tokens, and the guards of the routes. What
-- `jwt.decode` makes of a token, with the signature, the expiry, the issuer and the audience
-- checked, is a parameter.
pub mod Access
mod Tests
use festival_service.Prelude.{
  String, Bool, true, false, not, ◌||◌, ◌==◌, Option, none, some, List, [], ◌∷◌, map, if◌then◌else◌,
}
use Prim.Native.String
use festival_service.Text.{is_empty, f_string, starts_with, join}
use festival_service.Json
use festival_service.Json.{
  Json, null, bool, int, float, text, arr, obj, Items, nil, cons, Fields, end, field, is_truthy,
  str, get_text,
}
use festival_service.Errors.{
  Exception, Result, ok, err, unauthenticated, permission_denied, internal, value_error, type_error,
  raise_if, ◌>>=◌, ◌>>◌,
}
use Prim.Native.Nat.{Ordering}
use festival_service.Sorting.{sort}
use festival_service.Runtime.{Runtime}

pub data Role : Type 0 where
  basic_user developer support admin : Role

-- The values of the `StrEnum`.
unfoldable pub role_text : Role → String
role_text basic_user = "BASIC_USER"
role_text developer = "DEVELOPER"
role_text support = "SUPPORT"
role_text admin = "ADMIN"

-- `Role(raw_role)`; `none` is its ValueError.
unfoldable pub role_of_text : String → Option Role
role_of_text s =
    if s == "BASIC_USER"
    then some basic_user
    else if s == "DEVELOPER"
    then some developer
    else if s == "SUPPORT"
    then some support
    else if s == "ADMIN"
    then some admin
    else none

abbrev pub same_role : Role → Role → Bool
same_role basic_user basic_user = true
same_role developer developer = true
same_role support support = true
same_role admin admin = true
same_role _ _ = false

-- `role in roles`
unfoldable pub in_roles : Role → List Role → Bool
in_roles role [] = false
in_roles role (r ∷ roles) = same_role r role || in_roles role roles

pub record Principal : Type 0 where
  pub user_id : String
  pub role : Role
  pub email : String
  pub scopes : List String

-- `Principal.is_staff`
unfoldable pub is_staff : Principal → Bool
unfolding in_roles
is_staff p = in_roles p.role (support ∷ admin ∷ [])

-- `Principal.has_role`
unfoldable pub has_role : Principal → List Role → Bool
unfolding in_roles
has_role p roles = in_roles p.role roles

pub record Verifier : Type 0 where
  pub key : String
  pub algorithm : String
  pub issuer : String
  pub audience : String

-- `Verifier.__init__`; the leeway is left to `jwt.decode`.
unfoldable pub new_verifier : String → String → String → String → String → Result Verifier
unfolding is_empty starts_with
new_verifier secret public_key algorithm issuer audience =
    let with_key : String → Result Verifier = λ key.
      if is_empty key
      then err value_error
      else ok (record { key = key; algorithm = algorithm; issuer = issuer; audience = audience }) in
    if starts_with "HS" algorithm
    then with_key secret
    else if starts_with "RS" algorithm
    then with_key public_key
    else err value_error

-- How `jwt.decode` ends. It has required a `sub` claim, which is a text; `claims` has the others.
pub data Decoded : Type 0 where
  expired invalid : Decoded
  decoded : String → Fields → Decoded

-- The characters of a text, one by one.
unfoldable pub characters : String → List String
characters String.[] = []
characters (String.◌∷◌ c s) = String.◌∷◌ c String.[] ∷ characters s

unfoldable pub items_of : Runtime → Items → List String
unfolding str
items_of rt nil = []
items_of rt (cons x xs) = str rt.repr x ∷ items_of rt xs

unfoldable pub keys_of : Fields → List String
keys_of end = []
keys_of (field k v fs) = k ∷ keys_of fs

-- `frozenset(str(s) for s in claims.get("scopes") or [])`; a number cannot be iterated over.
unfoldable pub scopes_of : Runtime → Option Json → Result (List String)
unfolding characters items_of keys_of is_truthy
scopes_of rt none = ok []
scopes_of rt (some (arr xs)) = ok (items_of rt xs)
scopes_of rt (some (text s)) = ok (characters s)
scopes_of rt (some (obj fs)) = ok (keys_of fs)
scopes_of rt (some v) = if is_truthy (some v) then err type_error else ok []

abbrev pub wrong_type : String → Exception
wrong_type token_type =
    unauthenticated "only an access token may be used to call the API"
      (if token_type == "refresh" then "REFRESH_TOKEN_USED" else "WRONG_TOKEN_TYPE")

unfoldable pub unknown_role : Runtime → String → Exception
unknown_role rt raw_role =
    unauthenticated (f_string ("unknown role " ∷ rt.repr (text raw_role) ∷ [])) "TOKEN_INVALID"

-- The `try` around `Role(raw_role)`.
abbrev pub or_unknown : Runtime → String → Option Role → Result Role
or_unknown rt raw_role none = err (unknown_role rt raw_role)
or_unknown rt raw_role (some role) = ok role

-- `verify`, from the claims on.
unfoldable pub principal_of : Runtime → String → Fields → Result Principal
unfolding get_text role_of_text scopes_of Json.get is_empty
principal_of rt subject claims = do
  let token_type = get_text rt.repr "typ" claims
  raise_if (not (token_type == "access")) (wrong_type token_type)
  raise_if (is_empty subject) (unauthenticated "the token carries no subject" "TOKEN_INVALID")
  let raw_role = get_text rt.repr "role" claims
  role ← or_unknown rt raw_role (role_of_text raw_role)
  scopes ← scopes_of rt (Json.get "scopes" claims)
  ok (record {
    user_id = subject;
    role = role;
    email = get_text rt.repr "email" claims;
    scopes = scopes;
  })

-- `Verifier.verify`, of a token that `jwt.decode` has looked at.
unfoldable pub verify : Runtime → Decoded → Result Principal
unfolding principal_of
verify rt expired = err (unauthenticated "the token has expired" "TOKEN_EXPIRED")
verify rt invalid = err (unauthenticated "the token is not valid" "TOKEN_INVALID")
verify rt (decoded subject claims) = principal_of rt subject claims

-- `current_principal`; `decode` is the verifier of `app.state`, if there is one, and the
-- credentials are the bearer token of the request, if there is one.
unfoldable pub current_principal :
    Runtime → Option (String → Decoded) → Option String → Result Principal
unfolding verify is_empty
current_principal rt verifier none =
    err (unauthenticated "an access token is required" "TOKEN_MISSING")
current_principal rt verifier (some token) =
    if is_empty token
    then err (unauthenticated "an access token is required" "TOKEN_MISSING")
    else elim verifier [
      | none ↦ err (internal "the token verifier is not configured")
      | some decode ↦ verify rt (decode token)
    ]

-- `s <= t` on texts of ASCII characters.
abbrev text_le : String → String → Bool
text_le s t = elim (String.compare s t) [ Ordering.gt ↦ false | _ ↦ true ]

unfoldable pub role_required : List Role → Exception
unfolding join role_text sort
role_required roles =
    permission_denied
      (f_string
        ("this action requires one of: " ∷ join ", " (sort text_le (map role_text roles)) ∷ []))
      "ROLE_REQUIRED"

-- `require(*roles)`, on the verified caller.
unfoldable pub require : List Role → Principal → Result Principal
unfolding has_role role_required
require [] p = ok p
require (r ∷ roles) p =
    if not (has_role p (r ∷ roles)) then err (role_required (r ∷ roles)) else ok p

-- `dependencies=[Depends(require(*roles))]` in front of a route.
unfoldable pub guard :
    Runtime → Option (String → Decoded) → Option String → List Role → Result Principal
unfolding current_principal require
guard rt verifier token roles = current_principal rt verifier token >>= require roles
