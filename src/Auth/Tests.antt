-- ===== src/Auth/Tests.antt =====
-- Tokens at concrete claims.
use festival_service.Prelude.{String, ◌≡◌, refl, ◌↔◌, none, some, [], ◌∷◌}
use festival_service.Json.{Fields, text, arr, nil, cons, end, field}
use festival_service.Errors.{ok, err, permission_denied, unauthenticated}
use festival_service.Samples.{rt}
use festival_service.Auth.{
  Principal, Decoded, decoded, invalid, guard, admin, support, developer, basic_user,
}
use festival_service.Auth.Access.{Authenticated, Allowed, guard_iff}

abbrev claims : String → Fields
claims role =
    field "typ" (text "access")
      (field "role" (text role) (field "scopes" (arr (cons (text "festivals") nil)) end))

-- The verifier takes one token.
abbrev decode : String → Decoded
decode String.[] = invalid
decode token = decoded "u1" (claims "ADMIN")

abbrev admin_caller : Principal
admin_caller = record { user_id = "u1"; role = admin; email = ""; scopes = "festivals" ∷ [] }

let_in : guard rt (some decode) (some "t1") (admin ∷ []) ≡ ok admin_caller
unfolding guard
let_in = refl

turned_away :
    guard rt (some decode) (some "t1") (developer ∷ basic_user ∷ [])
    ≡ err (permission_denied "this action requires one of: BASIC_USER, DEVELOPER" "ROLE_REQUIRED")
unfolding guard
turned_away = refl

nobody :
    guard rt (some decode) none (admin ∷ [])
    ≡ err (unauthenticated "an access token is required" "TOKEN_MISSING")
unfolding guard
nobody = refl

guard_iff_example :
    (guard rt (some decode) (some "t1") (admin ∷ support ∷ []) ≡ ok admin_caller) ↔ (
      Authenticated rt (some decode) (some "t1") admin_caller
      × Allowed (admin ∷ support ∷ []) admin_caller)
guard_iff_example = guard_iff rt (some decode) (some "t1") (admin ∷ support ∷ []) admin_caller
