-- ===== src/Logging/Redaction.antt =====
-- What the log entries of app/platform/logging.py show of an attribute.
use festival_service.Prelude.{
  String, true, false, not, ◌&&◌, ◌==◌, ◌≡◌, refl, sym, ◌∙◌, ap, ◌⊎◌, inl, inr, Option, none, some,
  Bool-cases, eq_iff,
}
use festival_service.Text.{starts_with}
use festival_service.Json
use festival_service.Json.{Json, text, Fields, end, field}
use festival_service.Http.{put}
use festival_service.Http.Problems.{get-put, get-put_same}
use festival_service.Logging.{
  markers, marked, reserved, is_in, redact, add_extra, base_entry, with_error, format, LogRecord,
}

-- The entry has no such member, or one that is redacted.
abbrev pub Hidden : String → Fields → Type 0
Hidden key entry = (Json.get key entry ≡ none) ⊎ (Json.get key entry ≡ some (text "[redacted]"))

put-Hidden_other :
    (key j : String) (v : Json) (entry : Fields)
    → (j == key) ≡ false
    → Hidden key entry
    → Hidden key (put j v entry)
put-Hidden_other key j v entry other (inl absent) = inl (get-put key j v entry other ∙ absent)
put-Hidden_other key j v entry other (inr redacted) = inr (get-put key j v entry other ∙ redacted)

module _ (lower : String → String) (key : String) where
  add_extra-Hidden :
      (entry extra : Fields)
      → marked (lower key) markers ≡ true
      → Hidden key entry
      → Hidden key (add_extra lower entry extra)
  unfolding add_extra redact
  add_extra-Hidden entry end sensitive hidden = hidden
  add_extra-Hidden entry (field j value extra) sensitive hidden =
      elim (Bool-cases (not (is_in j reserved) && not (starts_with "_" j))) [
        | inr left_out ↦ rw (add_extra, left_out) (add_extra-Hidden entry extra sensitive hidden)
        | inl taken ↦
            rw (add_extra, taken)
              (add_extra-Hidden (put j (redact lower j value) entry) extra sensitive
                (elim (Bool-cases (j == key)) [
                  | inl same ↦
                      let equal = (eq_iff j key).0 same in
                      let secret : marked (lower j) markers ≡ true = rw equal sensitive in
                      inr (
                        ap (λ k. Json.get k (put j (redact lower j value) entry)) (sym equal)
                        ∙ get-put_same j (redact lower j value) entry
                        ∙ rw (redact, secret) refl)
                  | inr other ↦ put-Hidden_other key j (redact lower j value) entry other hidden
                ]))
      ]

  -- An attribute of a log record whose name has one of the markers in it is never written: the entry
  -- has no such member, or one that says that it was redacted. This is not about the members that
  -- the formatter writes itself.
  pub format-Hidden :
      (service version correlation : String) (r : LogRecord)
      → marked (lower key) markers ≡ true
      → Json.get key (base_entry service version correlation r) ≡ none
      → ("error" == key) ≡ false
      → Hidden key (format lower service version correlation r)
  unfolding format
  format-Hidden service version correlation r sensitive absent other =
      finish r.exception (add_extra lower (base_entry service version correlation r) r.extra)
        (add_extra-Hidden (base_entry service version correlation r) r.extra sensitive (inl absent))
    where
      finish :
          (exception : Option String) (entry : Fields)
          → Hidden key entry
          → Hidden key (with_error exception entry)
      finish none entry hidden = hidden
      finish (some error) entry hidden =
          put-Hidden_other key "error" (text error) entry other hidden
