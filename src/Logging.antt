-- ===== src/Logging.antt =====
-- app/platform/logging.py: the entry that `JSONFormatter.format` writes, and what it redacts. The
-- log record, with the texts that `logging` makes of it, is a parameter; `lower` is `str.lower`.
pub mod Redaction
mod Tests
use festival_service.Prelude.{
  String, Bool, true, false, not, ◌&&◌, ◌||◌, ◌==◌, Option, none, some, List, [], ◌∷◌,
  if◌then◌else◌,
}
use festival_service.Text.{is_empty, starts_with, occurs}
use festival_service.Json.{Json, text, Fields, end, field}
use festival_service.Http.{put}

-- `_REDACT`
abbrev pub markers : List String
markers = "password" ∷ "secret" ∷ "token" ∷ "authorization" ∷ "api_key" ∷ "pepper" ∷ []

-- `_RESERVED`
abbrev pub reserved : List String
reserved =
    "name" ∷ "msg" ∷ "args" ∷ "levelname" ∷ "levelno" ∷ "pathname" ∷ "filename" ∷ "module"
    ∷ "exc_info" ∷ "exc_text" ∷ "stack_info" ∷ "lineno" ∷ "funcName" ∷ "created" ∷ "msecs"
    ∷ "relativeCreated" ∷ "thread" ∷ "threadName" ∷ "processName" ∷ "process" ∷ "taskName"
    ∷ "message" ∷ "asctime" ∷ []

abbrev is_in : String → List String → Bool
is_in s [] = false
is_in s (t ∷ l) = t == s || is_in s l

-- `any(marker in lowered for marker in _REDACT)`
unfoldable pub marked : String → List String → Bool
unfolding occurs
marked lowered [] = false
marked lowered (marker ∷ l) = occurs marker lowered || marked lowered l

-- A log record: the texts of its parts, and its other attributes.
pub record LogRecord : Type 0 where
  pub time : String
  pub level : String
  pub message : String
  pub logger : String
  pub extra : Fields
  -- the formatted exception, if there is one
  pub exception : Option String

-- The entry before the loop.
abbrev pub base_entry : String → String → String → LogRecord → Fields
base_entry service version correlation r = field "time" (text r.time) (
    field "level" (text r.level) (
      field "msg" (text r.message) (
        field "logger" (text r.logger) (
          field "service" (text service) (
            field "version" (text version) (
              if is_empty correlation
              then end
              else field "correlation_id" (text correlation) end))))))

abbrev pub with_error : Option String → Fields → Fields
with_error none entry = entry
with_error (some error) entry = put "error" (text error) entry

module _ (lower : String → String) where
  -- `_redact`
  unfoldable pub redact : String → Json → Json
  unfolding marked
  redact key value = if marked (lower key) markers then text "[redacted]" else value

  -- The loop over `record.__dict__`.
  unfoldable pub add_extra : Fields → Fields → Fields
  unfolding put redact starts_with
  add_extra entry end = entry
  add_extra entry (field key value extra) =
      add_extra
        (if not (is_in key reserved) && not (starts_with "_" key)
          then put key (redact key value) entry
          else entry)
        extra

  -- `JSONFormatter.format`, up to `json.dumps`.
  unfoldable pub format : String → String → String → LogRecord → Fields
  unfolding add_extra put is_empty
  format service version correlation r =
      with_error r.exception (add_extra (base_entry service version correlation r) r.extra)
