-- ===== src/Festival/Window.antt =====
-- What `create` and `reschedule` of app/domain/festival.py check of the window.
use festival_service.Prelude.{ℕ, ◌≤◌, ◌<◌, String, ◌≡◌, ◌↔◌, ◌⊎◌, false, arith}
use festival_service.Text
use festival_service.Datetime.{Datetime, aware, naive}
use festival_service.Errors.{ok, err, Raises, invalid_argument_code, type_error}
use festival_service.Festival.{
  Festival, draft, name_max, create, reschedule, check_window, reason_bad_window,
}

-- Between instants with a time zone, a window is accepted exactly when it ends after it starts and
-- after now.
pub check_window_iff :
    (s e n : ℕ) → (check_window (aware s) (aware e) (aware n) ≡ ok tt) ↔ ((s < e) × (n < e))
unfolding check_window
check_window_iff s e n = (λ h. ground arith, λ h. ground arith)

-- A window that ends at or before its start, or at or before now, is an invalid argument, with the
-- reason for a bad window.
check_window_refuses :
    (s e n : ℕ)
    → (e ≤ s) ⊎ (e ≤ n)
    → Raises invalid_argument_code reason_bad_window (check_window (aware s) (aware e) (aware n))
unfolding check_window
check_window_refuses s e n h = ground arith

-- Two bounds without a time zone, the end after the start, pass the first test; the second compares
-- one of them with the clock's time, which has a zone, and `create` ends in `TypeError`, whatever
-- the name, if it is a valid one.
pub create_naive_window :
    (festival_id name description created_by : String) (s e n : ℕ)
    → Text.is_empty (Text.strip name) ≡ false
    → Text.length (Text.strip name) ≤ name_max
    → s < e
    → create festival_id name description (naive s) (naive e) created_by (aware n) ≡ err type_error
unfolding create
create_naive_window festival_id name description created_by s e n named fits window = ground arith

-- A reschedule changes the two bounds and nothing else, and happens exactly when the festival is
-- a DRAFT and the new window is accepted.
reschedule_iff :
    (f : Festival) (s e now : Datetime)
    → (reschedule f s e now ≡ ok (record f { starts_at = s; ends_at = e }))
      ↔ ((f.state ≡ draft) × (check_window s e now ≡ ok tt))
unfolding reschedule
reschedule_iff f s e now = (λ h. ground arith, λ h. ground arith)
