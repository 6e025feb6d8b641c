-- ===== src/Logging/Tests.antt =====
-- A log record with a password among its attributes.
use festival_service.Prelude.{String, ◌≡◌, refl, none}
use festival_service.Json
use festival_service.Json.{text, end, field}
use festival_service.Logging.{LogRecord, format}
use festival_service.Logging.Redaction.{Hidden, format-Hidden}

abbrev lower : String → String
lower s = s

abbrev line : LogRecord
line = record {
  time = "2026-07-27T12:00:00Z";
  level = "INFO";
  message = "signed in";
  logger = "app";
  extra =
      field "db_password" (text "hunter2")
        (field "taskName" (text "t") (field "path" (text "/") end));
  exception = none;
}

shown :
    format lower "s" "dev" "" line
    ≡ field "time" (text "2026-07-27T12:00:00Z") (
        field "level" (text "INFO") (
          field "msg" (text "signed in") (
            field "logger" (text "app") (
              field "service" (text "s") (
                field "version"
                  (text "dev")
                  (field "db_password" (text "[redacted]") (field "path" (text "/") end)))))))
unfolding format
shown = refl

format-Hidden_example : Hidden "db_password" (format lower "s" "dev" "" line)
unfolding festival_service.Logging.marked Json.get festival_service.Text.is_empty
format-Hidden_example = format-Hidden lower "db_password" "s" "dev" "" line refl refl refl
