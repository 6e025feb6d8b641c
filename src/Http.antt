-- ===== src/Http.antt =====
-- app/platform/http.py: problem documents, the handlers of exceptions, and the middleware that
-- gives every request its correlation id. Log lines and durations are left out; FastAPI decides
-- which handler an exception goes to.
pub mod Problems
pub mod Observed
mod Tests
use festival_service.Prelude.{
  ℕ, String, not, ◌==◌, Option, none, some, List, [], ◌∷◌, if◌then◌else◌,
}
use festival_service.Text.{is_empty, join}
use festival_service.Text.Number.{str_of_int}
use festival_service.Int.{pos}
use festival_service.Dict.{Dict}
use festival_service.Json.{Json, int, text, arr, obj, Items, nil, cons, Fields, end, field}
use festival_service.Errors.{
  Code, invalid_argument_code, unauthenticated_code, permission_denied_code, not_found_code,
  already_exists_code, conflict_code, failed_precondition_code, resource_exhausted_code,
  unavailable_code, internal_code, AppError, http_status, Exception, app,
}

-- The values of the `StrEnum`.
unfoldable pub code_text : Code → String
code_text invalid_argument_code = "INVALID_ARGUMENT"
code_text unauthenticated_code = "UNAUTHENTICATED"
code_text permission_denied_code = "PERMISSION_DENIED"
code_text not_found_code = "NOT_FOUND"
code_text already_exists_code = "ALREADY_EXISTS"
code_text conflict_code = "CONFLICT"
code_text failed_precondition_code = "FAILED_PRECONDITION"
code_text resource_exhausted_code = "RESOURCE_EXHAUSTED"
code_text unavailable_code = "UNAVAILABLE"
code_text internal_code = "INTERNAL"

-- `body[k] = v`
unfoldable pub put : String → Json → Fields → Fields
put k v end = field k v end
put k v (field j w fs) = if j == k then field j v fs else field j w (put k v fs)

-- `body.update(extra)`
unfoldable pub update : Fields → Fields → Fields
unfolding put
update body end = body
update body (field k v fs) = update (put k v body) fs

pub record Response : Type 0 where
  pub status : ℕ
  pub content : Json
  pub media_type : String
  -- the header `X-Correlation-ID`
  pub correlation : Option String

-- The document before `body.update`.
abbrev pub document : ℕ → String → String → String → Fields
document status title detail reason = field "type" (text "about:blank") (
    field "title" (text title) (
      field "status" (int (pos status)) (
        field "detail" (text detail)
          (if is_empty reason then end else field "reason" (text reason) end))))

-- `correlation` is `correlation_id_var.get()`.
unfoldable pub problem : String → ℕ → String → String → String → Fields → Response
unfolding update is_empty
problem correlation status title detail reason extra = record {
  status = status;
  content = obj (update (document status title detail reason) extra);
  media_type = "application/problem+json";
  correlation = some correlation;
}

-- `AppError.details` as JSON.
unfoldable pub details_of : Dict String → Fields
details_of [] = end
details_of ((k, v) ∷ details) = field k (text v) (details_of details)

-- `_app_error`
unfoldable pub app_error : String → AppError → Response
unfolding problem code_text http_status details_of
app_error correlation e =
    problem correlation (http_status e) (code_text e.code) e.message e.reason (details_of e.details)

-- One entry of `RequestValidationError.errors()`, each part of its location as a text.
pub record FieldError : Type 0 where
  pub loc : List String
  pub message : String

-- `loc[1:]`
abbrev tail_of : List String → List String
tail_of [] = []
tail_of (part ∷ parts) = parts

unfoldable pub field_errors : List FieldError → Items
unfolding join
field_errors [] = nil
field_errors (e ∷ errors) =
    cons
      (obj (field "field" (text (join "." (tail_of e.loc))) (field "message" (text e.message) end)))
      (field_errors errors)

-- `_validation`
unfoldable pub validation : String → List FieldError → Response
unfolding problem code_text field_errors
validation correlation errors =
    problem correlation 400 (code_text invalid_argument_code)
      "the request body or parameters are not valid" "VALIDATION_FAILED"
      (field "errors" (arr (field_errors errors)) end)

-- `_http`
unfoldable pub http_exception : String → ℕ → String → Response
unfolding problem
http_exception correlation status_code detail =
    problem correlation status_code "HTTP_ERROR" detail "" end

-- `_unexpected`
unfoldable pub unexpected : String → Response
unfolding problem code_text
unexpected correlation =
    problem correlation 500 (code_text internal_code) "the request could not be completed" "" end

-- What a request can end with in place of an answer.
pub data Failure : Type 0 where
  raised : Exception → Failure
  not_valid : List FieldError → Failure
  http : ℕ → String → Failure

-- The handler of each class of exception.
unfoldable pub handle : String → Failure → Response
unfolding app_error validation http_exception unexpected
handle correlation (raised (app e)) = app_error correlation e
handle correlation (raised _) = unexpected correlation
handle correlation (not_valid errors) = validation correlation errors
handle correlation (http status_code detail) = http_exception correlation status_code detail

-- How `call_next` ends: the handler of `Exception` is outside of the middleware.
pub data Next : Type 0 where
  responded : Response → Next
  unhandled : Exception → Next

-- `requests_total.labels(service, method, route, status)`
pub record Sample : Type 0 where
  pub service : String
  pub method : String
  pub route : String
  pub status : String

-- `request.headers.get(CORRELATION_HEADER) or new_id()`
unfoldable pub correlation_for : Option String → String → String
unfolding is_empty
correlation_for none new_id = new_id
correlation_for (some header) new_id = if is_empty header then new_id else header

unfoldable pub counted : String → String → String → Response → Sample
unfolding str_of_int
counted service method route response = record {
  service = service;
  method = method;
  route = route;
  status = str_of_int (pos response.status);
}

-- `_observe` from the end of `call_next` on, and the handler of `Exception` around it: the response,
-- and the request as counted.
unfoldable pub finish : String → String → String → String → Next → Response × Option Sample
unfolding counted unexpected
finish service method route correlation (responded response) = (
  record response { correlation = some correlation },
  some (counted service method route response),
)
finish service method route correlation (unhandled e) = (unexpected correlation, none)

-- `_observe`: `call_next` takes the correlation id that the context variable holds.
unfoldable pub observe :
    String → String → String → Option String → String → (String → Next) → Response × Option Sample
unfolding correlation_for finish
observe service method route header new_id call_next =
    let correlation = correlation_for header new_id in
    finish service method route correlation (call_next correlation)

-- How the application behind the middleware ends: with an answer, or with a failure.
pub data Ending : Type 0 where
  answers : Response → Ending
  fails : Failure → Ending

-- The handlers of `install_error_handlers` answer inside of the middleware, but for that of
-- `Exception`.
unfoldable pub next_of : String → Ending → Next
unfolding handle
next_of correlation (answers response) = responded response
next_of correlation (fails (raised (app e))) = responded (handle correlation (raised (app e)))
next_of correlation (fails (raised e)) = unhandled e
next_of correlation (fails f) = responded (handle correlation f)
