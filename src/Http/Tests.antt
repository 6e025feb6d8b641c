-- ===== src/Http/Tests.antt =====
-- Responses at concrete failures.
use festival_service.Prelude.{◌≤◌, String, ◌≡◌, refl, none, some, [], ◌∷◌, if◌then◌else◌}
use festival_service.Text.{is_empty}
use festival_service.Int.{pos}
use festival_service.Json.{int, text, obj, end, field}
use festival_service.Errors.{AppError, app, conflict_code, runtime_error}
use festival_service.Http.{raised, handle, observe, code_text}
use festival_service.Http.{Ending, fails, next_of}
use festival_service.Http.Observed.{Correlated, Seen, observe_lem}
use festival_service.Http.Problems.{member, app_error_document}

abbrev stale : AppError
stale = record {
  code = conflict_code;
  message = "changed meanwhile";
  reason = "STALE";
  details = ("festival_id", "f1") ∷ [];
}

document_of :
    (handle "c1" (raised (app stale))).content
    ≡ obj (
        field "type" (text "about:blank") (
          field "title" (text "CONFLICT") (
            field "status" (int (pos 409)) (
              field "detail"
                (text "changed meanwhile")
                (field "reason" (text "STALE") (field "festival_id" (text "f1") end))))))
unfolding handle
document_of = refl

app_error_document_example :
    let r = handle "c1" (raised (app stale)) in
    (400 ≤ r.status)
    × (r.correlation ≡ some "c1")
    × (member "status" r.content ≡ some (int (pos r.status)))
    × (member "title" r.content ≡ some (text (code_text conflict_code)))
    × (member "detail" r.content ≡ some (text "changed meanwhile"))
    × (member "reason" r.content ≡ (if is_empty "STALE" then none else some (text "STALE")))
unfolding festival_service.Dict.get
app_error_document_example = app_error_document "c1" stale refl refl refl refl

abbrev crash : String → Ending
crash correlation = fails (raised runtime_error)

observe_lem_example :
    let (r, sample) =
      observe "festival-service" "GET" "/v1/festivals"
        (some "c7")
        "c8"
        (λ id. next_of id (crash id)) in
    (correlation : String) × Correlated (some "c7") "c8" correlation
    × (r.correlation ≡ some correlation)
    × Seen "festival-service" "GET" "/v1/festivals" correlation r sample (crash correlation)
observe_lem_example = observe_lem "festival-service" "GET" "/v1/festivals" (some "c7") "c8" crash
