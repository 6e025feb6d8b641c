-- ===== src/Http/Observed.antt =====
-- The middleware of app/platform/http.py around the application and its handlers of failures.
use festival_service.Prelude.{
  String, Bool, true, false, ◌≡◌, refl, ◌⊎◌, inl, inr, Option, none, some, Bool-cases, arith,
}
use festival_service.Int.{pos}
use festival_service.Text.{is_empty}
use festival_service.Text.Number.{str_of_int}
use festival_service.Errors.{Exception, app}
use festival_service.Http.{
  Response, Sample, Failure, raised, not_valid, http, Ending, answers, fails, next_of, handle,
  observe, finish, correlation_for, counted, app_error, validation, http_exception, unexpected,
  problem,
}

-- The correlation id of a request: the one of its header, unless it is absent or empty.
pub data Correlated (header : Option String) (new_id : String) : String → Type 0 where
  carried : (id : String) → header ≡ some id → is_empty id ≡ false → Correlated header new_id id
  fresh : (header ≡ none) ⊎ (header ≡ some "") → Correlated header new_id new_id

-- An exception that none but the handler of `Exception` takes.
abbrev pub gets_through : Exception → Bool
gets_through (app e) = false
gets_through e = true

-- The request is counted, with the status that the client sees.
abbrev pub Counted : String → String → String → Response → Option Sample → Type 0
Counted service method route r sample =
    sample
    ≡ some (record {
      service = service;
      method = method;
      route = route;
      status = str_of_int (pos r.status);
    })

-- What the client sees of the end of the application, and how the request is counted.
pub data Seen (service method route correlation : String) (r : Response) (sample : Option Sample)
    : Ending → Type 0 where
  answered :
      (answer : Response)
      → r.content ≡ answer.content
      → r.status ≡ answer.status
      → Counted service method route r sample
      → Seen service method route correlation r sample (answers answer)
  refused :
      (f : Failure)
      → r ≡ handle correlation f
      → Counted service method route r sample
      → Seen service method route correlation r sample (fails f)
  crashed :
      (e : Exception)
      → gets_through e ≡ true
      → r ≡ handle correlation (raised e)
      → r.status ≡ 500
      → sample ≡ none
      → Seen service method route correlation r sample (fails (raised e))

is_empty-eq : (s : String) → is_empty s ≡ true → s ≡ ""
unfolding is_empty
is_empty-eq String.[] h = refl
is_empty-eq (String.◌∷◌ c s) h = ground arith

correlation_for-Correlated :
    (header : Option String) (new_id : String)
    → Correlated header new_id (correlation_for header new_id)
unfolding correlation_for
correlation_for-Correlated none new_id = fresh (inl refl)
correlation_for-Correlated (some id) new_id = elim (Bool-cases (is_empty id)) [
  | inl empty ↦ rw empty (fresh (inr (rw (is_empty-eq id empty) refl)))
  | inr given ↦ rw given (carried id refl given)
]

module _ (service method route correlation : String) where
  Finished : Ending → Response × Option Sample → Type 0
  Finished e (r, sample) =
      (r.correlation ≡ some correlation) × Seen service method route correlation r sample e

  finish-Finished :
      (e : Ending) → Finished e (finish service method route correlation (next_of correlation e))
  unfolding Finished finish next_of counted handle app_error validation http_exception unexpected
      problem
  finish-Finished (answers response) = (refl, answered response refl refl refl)
  finish-Finished (fails (not_valid errors)) = (refl, refused (not_valid errors) refl refl)
  finish-Finished (fails (http status_code detail)) =
      (refl, refused (http status_code detail) refl refl)
  finish-Finished (fails (raised (app e))) = (refl, refused (raised (app e)) refl refl)
  finish-Finished (fails (raised e)) = (refl, crashed e refl refl refl refl)

-- The answer to a request has the correlation id of its header, or a fresh one where the header is
-- absent or empty, and the application runs under that id. An answer of the application is passed
-- on, with its content and status; a failure is answered with the document of its handler. Each is
-- counted with the status that the client sees, but for an exception that only the handler of
-- `Exception` takes: that is answered with a 500, and is not counted.
pub observe_lem :
    (service method route : String) (header : Option String) (new_id : String)
    (application : String → Ending)
    → let (r, sample) =
        observe service method route header new_id (λ id. next_of id (application id)) in
      (correlation : String) × Correlated header new_id correlation
      × (r.correlation ≡ some correlation)
      × Seen service method route correlation r sample (application correlation)
unfolding observe Finished
observe_lem service method route header new_id application =
    let id = correlation_for header new_id in
    let (same, seen) = finish-Finished service method route id (application id) in
    (id, correlation_for-Correlated header new_id, same, seen)
