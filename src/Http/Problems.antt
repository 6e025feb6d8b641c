-- ===== src/Http/Problems.antt =====
-- What the problem documents of app/platform/http.py say.
use festival_service.Prelude.{
  ℕ, ◌≤◌, String, false, ◌==◌, ◌≡◌, refl, ◌∙◌, inl, inr, Option, none, some, List, [], ◌∷◌,
  if◌then◌else◌, Bool-cases, eq_iff, eq_refl, arith,
}
use festival_service.Text.{is_empty}
use festival_service.Int.{pos}
use festival_service.Dict
use festival_service.Dict.{Dict}
use festival_service.Json
use festival_service.Json.{Json, int, text, obj, Fields, end, field}
use festival_service.Errors.{AppError, Code, status_of, http_status, Exception, app}
use festival_service.Http.{
  put, update, document, details_of, code_text, app_error, handle, validation, FieldError, raised,
  not_valid, unexpected, problem,
}

pub get-put :
    (k j : String) (v : Json) (fs : Fields)
    → (j == k) ≡ false
    → Json.get k (put j v fs) ≡ Json.get k fs
unfolding Json.get put
get-put k j v end other = ground arith
get-put k j v (field i w fs) other = elim (Bool-cases (i == j)) [
  | inl here ↦ let same = (eq_iff i j).0 here in rw (put, here, Json.get, same, other) refl
  | inr past ↦ let rest = get-put k j v fs other in rw (put, past, Json.get, rest) refl
]

pub get-put_same : (k : String) (v : Json) (fs : Fields) → Json.get k (put k v fs) ≡ some v
unfolding Json.get put
get-put_same k v end = rw eq_refl refl
get-put_same k v (field i w fs) = elim (Bool-cases (i == k)) [
  | inl here ↦ rw (put, here, Json.get, here) refl
  | inr past ↦ let rest = get-put_same k v fs in rw (put, past, Json.get, past) rest
]

get-update :
    (k : String) (body extra : Fields)
    → Json.get k extra ≡ none
    → Json.get k (update body extra) ≡ Json.get k body
unfolding Json.get update
get-update k body end absent = refl
get-update k body (field j v fs) absent = elim (Bool-cases (j == k)) [
  | inl here ↦ ground arith
  | inr other ↦ get-update k (put j v body) fs (ground arith) ∙ get-put k j v body other
]

get-details_of :
    (k : String) (d : Dict String) → Dict.get k d ≡ none → Json.get k (details_of d) ≡ none
unfolding Json.get details_of Dict.get
get-details_of k [] absent = refl
get-details_of k ((j, v) ∷ d) absent = elim (Bool-cases (j == k)) [
  | inl here ↦ ground arith
  | inr other ↦ let rest = get-details_of k d (ground arith) in ground arith
]

pub status_of-bounds : (c : Code) → 400 ≤ status_of c
unfolding status_of
status_of-bounds c = ground arith

-- `content[k]`
abbrev pub member : String → Json → Option Json
member k (obj fs) = Json.get k fs
member k _ = none

module _ (correlation : String) where
  problem-member :
      (k : String) (status : ℕ) (title detail reason : String) (extra : Fields)
      → Json.get k extra ≡ none
      → member k (problem correlation status title detail reason extra).content
        ≡ Json.get k (document status title detail reason)
  unfolding problem
  problem-member k status title detail reason extra absent =
      get-update k (document status title detail reason) extra absent

  -- The problem document of an `AppError` states the HTTP status of its response, which is at least
  -- 400, and the error's code, message and, if there is one, reason, where the error's details have
  -- no member of these names; without a reason it has no such member.
  pub app_error_document :
      (e : AppError)
      → Dict.get "title" e.details ≡ none
      → Dict.get "status" e.details ≡ none
      → Dict.get "detail" e.details ≡ none
      → Dict.get "reason" e.details ≡ none
      → let r = handle correlation (raised (app e)) in
        (400 ≤ r.status)
        × (r.correlation ≡ some correlation)
        × (member "status" r.content ≡ some (int (pos r.status)))
        × (member "title" r.content ≡ some (text (code_text e.code)))
        × (member "detail" r.content ≡ some (text e.message))
        × (member "reason" r.content ≡ (if is_empty e.reason then none else some (text e.reason)))
  unfolding handle app_error problem Json.get http_status
  app_error_document e no_title no_status no_detail no_reason =
      let look = λ (k : String) (absent : Dict.get k e.details ≡ none).
        problem-member k (http_status e) (code_text e.code) e.message e.reason
          (details_of e.details) (get-details_of k e.details absent) in
      (
        status_of-bounds e.code,
        refl,
        look "status" no_status,
        look "title" no_title,
        look "detail" no_detail,
        look "reason" no_reason ∙ elim (Bool-cases (is_empty e.reason)) [
          | inl blank ↦ rw blank refl
          | inr given ↦ rw given refl
        ],
      )

  pub handle-raised-status : (e : Exception) → 400 ≤ (handle correlation (raised e)).status
  unfolding handle app_error problem http_status unexpected
  handle-raised-status (app e) = status_of-bounds e.code
  handle-raised-status _ = ground arith

  pub handle-not_valid-status :
      (errors : List FieldError) → 400 ≤ (handle correlation (not_valid errors)).status
  unfolding handle validation problem
  handle-not_valid-status errors = ground arith
