-- ===== src/Auth/Access.antt =====
-- Who gets past app/platform/auth.py: what a token has to say, and what a guarded route asks for.
use festival_service.Prelude.{
  String, true, false, ◌==◌, ◌≡◌, refl, sym, ◌∙◌, ap, ◌↔◌, ◌⊎◌, inl, inr, Option, some, List, [],
  ◌∷◌, Bool-cases, Option-cases, subst, eq_iff, arith,
}
use festival_service.Text.{is_empty}
use festival_service.Json
use festival_service.Json.{Fields, get_text}
use festival_service.Errors.{ok, Result-cases}
use festival_service.Runtime.{Runtime}
use festival_service.Auth.{
  Role, basic_user, developer, support, admin, role_text, role_of_text, Principal, Decoded, expired,
  invalid, decoded, scopes_of, principal_of, verify, current_principal, guard, require, has_role,
  in_roles,
}

-- The claims of an access token of the principal.
pub record AccessToken (rt : Runtime) (subject : String) (claims : Fields) (p : Principal)
    : Type 0 where
  pub kind : get_text rt.repr "typ" claims ≡ "access"
  pub named : is_empty subject ≡ false
  pub caller : p.user_id ≡ subject
  pub known_role : get_text rt.repr "role" claims ≡ role_text p.role
  pub granted : scopes_of rt (Json.get "scopes" claims) ≡ ok p.scopes
  pub address : p.email ≡ get_text rt.repr "email" claims

pub role_of_text-role_text : (r : Role) → role_of_text (role_text r) ≡ some r
unfolding role_of_text role_text
role_of_text-role_text basic_user = refl
role_of_text-role_text developer = refl
role_of_text-role_text support = refl
role_of_text-role_text admin = refl

pub role_text-role_of_text : (s : String) (r : Role) → role_of_text s ≡ some r → s ≡ role_text r
unfolding role_of_text role_text
role_text-role_of_text s r found = elim (Bool-cases (s == "BASIC_USER")) [
  | inl here ↦ let same = (eq_iff s "BASIC_USER").0 here in grind arith
  | inr past ↦ elim (Bool-cases (s == "DEVELOPER")) [
    | inl here ↦ let same = (eq_iff s "DEVELOPER").0 here in grind arith
    | inr past' ↦ elim (Bool-cases (s == "SUPPORT")) [
      | inl here ↦ let same = (eq_iff s "SUPPORT").0 here in grind arith
      | inr past'' ↦ elim (Bool-cases (s == "ADMIN")) [
        | inl here ↦ let same = (eq_iff s "ADMIN").0 here in grind arith
        | inr last ↦ grind arith
      ]
    ]
  ]
]

module _ (rt : Runtime) (subject : String) (claims : Fields) where
  AccessToken-principal_of :
      (p : Principal) → AccessToken rt subject claims p → principal_of rt subject claims ≡ ok p
  unfolding principal_of
  AccessToken-principal_of p t =
      rw
        (
          principal_of,
          t.kind,
          t.named,
          t.known_role,
          role_of_text-role_text,
          t.granted,
          sym t.caller,
          sym t.address,
        )
        refl

  principal_of-AccessToken :
      (p : Principal) → principal_of rt subject claims ≡ ok p → AccessToken rt subject claims p
  unfolding principal_of
  principal_of-AccessToken p passed =
      elim (Bool-cases (get_text rt.repr "typ" claims == "access")) [
        | inr other ↦ ground arith
        | inl access ↦ elim (Bool-cases (is_empty subject)) [
          | inl nobody ↦ ground arith
          | inr somebody ↦ elim (Option-cases (role_of_text (get_text rt.repr "role" claims))) [
            | inl stranger ↦ ground arith
            | inr (r, known) ↦ elim (Result-cases (scopes_of rt (Json.get "scopes" claims))) [
              | inr (e, bad) ↦ ground arith
              | inl (granted, list) ↦
                  let built : ok (record {
                    user_id = subject;
                    role = r;
                    email = get_text rt.repr "email" claims;
                    scopes = granted;
                  })
                      ≡ ok p =
                    ground arith in
                  let same : record {
                    user_id = subject;
                    role = r;
                    email = get_text rt.repr "email" claims;
                    scopes = granted;
                  }
                      ≡ p =
                    cc in
                  record {
                    kind = (eq_iff (get_text rt.repr "typ" claims) "access").0 access;
                    named = somebody;
                    caller = sym (ap (λ (q : Principal). q.user_id) same);
                    known_role =
                        role_text-role_of_text _ r known
                        ∙ ap (λ (q : Principal). role_text q.role) same;
                    granted = list ∙ ap (λ (q : Principal). ok q.scopes) same;
                    address = sym (ap (λ (q : Principal). q.email) same);
                  }
            ]
          ]
        ]
      ]

-- A caller with one of these roles, or any caller where none is named.
abbrev pub Allowed : List Role → Principal → Type 0
Allowed roles p = (roles ≡ []) ⊎ (in_roles p.role roles ≡ true)

-- The credentials of a request name the principal.
pub record Authenticated (rt : Runtime) (verifier : Option (String → Decoded))
    (token : Option String) (p : Principal) : Type 0 where
  pub bearer : String
  pub sent : token ≡ some bearer
  pub given : is_empty bearer ≡ false
  pub decode : String → Decoded
  pub configured : verifier ≡ some decode
  pub subject : String
  pub claims : Fields
  pub genuine : decode bearer ≡ decoded subject claims
  pub access : AccessToken rt subject claims p

require_iff :
    (roles : List Role) (q p : Principal) → (require roles q ≡ ok p) ↔ ((q ≡ p) × Allowed roles q)
unfolding require has_role
require_iff [] q p = (λ passed. (cc, inl refl), λ both. ap (λ x. ok x) both.0)
require_iff (r ∷ roles) q p = elim (Bool-cases (in_roles q.role (r ∷ roles))) [
  | inl member ↦ (λ passed. (ground arith, inr member), λ both. ground arith)
  | inr stranger ↦ (λ passed. ground arith, λ both. ground arith)
]

module _ (rt : Runtime) (verifier : Option (String → Decoded)) (token : Option String) where
  Authenticated-current_principal :
      (p : Principal)
      → Authenticated rt verifier token p
      → current_principal rt verifier token ≡ ok p
  unfolding current_principal verify
  Authenticated-current_principal p a =
      rw (a.sent, current_principal, a.given, a.configured, a.genuine)
        (AccessToken-principal_of rt a.subject a.claims p a.access)

  current_principal-Authenticated :
      (p : Principal)
      → current_principal rt verifier token ≡ ok p
      → Authenticated rt verifier token p
  unfolding current_principal verify
  current_principal-Authenticated p passed = elim (Option-cases token) [
    | inl absent ↦ ground arith
    | inr (bearer, sent) ↦ elim (Bool-cases (is_empty bearer)) [
      | inl blank ↦ ground arith
      | inr given ↦ elim (Option-cases verifier) [
        | inl missing ↦ ground arith
        | inr (decode, configured) ↦ look bearer sent given decode configured (decode bearer) refl
      ]
    ]
  ]
    where
      look :
          (bearer : String)
          → token ≡ some bearer
          → is_empty bearer ≡ false
          → (decode : String → Decoded) → verifier ≡ some decode
          → (found : Decoded) → decode bearer ≡ found
          → Authenticated rt verifier token p
      look bearer sent given decode configured expired seen = ground arith
      look bearer sent given decode configured invalid seen = ground arith
      look bearer sent given decode configured (decoded subject claims) seen = record {
        bearer = bearer;
        sent = sent;
        given = given;
        decode = decode;
        configured = configured;
        subject = subject;
        claims = claims;
        genuine = seen;
        access = principal_of-AccessToken rt subject claims p (ground arith);
      }

  -- A guarded route lets a caller in exactly when the request carries a non-empty bearer token, a
  -- verifier is configured, the token is genuine and says that it is an access token of a named
  -- subject with one of the platform's roles and readable scopes, and that role is one of those the
  -- route asks for, if it asks for any; the principal is then the one that the claims name.
  pub guard_iff :
      (roles : List Role) (p : Principal)
      → (guard rt verifier token roles ≡ ok p)
        ↔ (Authenticated rt verifier token p × Allowed roles p)
  unfolding guard
  guard_iff roles p = elim (Result-cases (current_principal rt verifier token)) [
    | inr (e, stopped) ↦ (
      λ passed. ground arith,
      λ both. let known = Authenticated-current_principal p both.0 in ground arith,
    )
    | inl (q, known) ↦ (
      λ passed.
          let allowed = (require_iff roles q p).0 (ground arith) in
          (
            current_principal-Authenticated p (known ∙ ap (λ x. ok x) allowed.0),
            subst (Allowed roles) allowed.0 allowed.1,
          ),
      λ both.
          let same : q ≡ p = (let certain = Authenticated-current_principal p both.0 in cc) in
          rw (guard, known)
            ((require_iff roles q p).1 (same, subst (Allowed roles) (sym same) both.1)),
    )
  ]
