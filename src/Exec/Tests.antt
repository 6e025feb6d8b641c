-- ===== src/Exec/Tests.antt =====
-- Units of work at a concrete database.
use festival_service.Prelude.{◌≡◌, refl, [], String}
use festival_service.Errors.{err, conflict}
use festival_service.Rows.{Database}
use festival_service.Exec.{Exec, idle, in_session, begin}

abbrev empty : Database
empty = record { festivals = []; catalog_games = []; promotions = []; outbox = []; next_id = 1 }

-- Draws an id, and fails.
abbrev draw_and_fail : Exec String
draw_and_fail =
    in_session (λ d. (err (conflict "late" "CONCURRENT_MODIFICATION" []), record d { next_id = 2 }))

fails : (begin draw_and_fail (idle empty)).0 ≡ err (conflict "late" "CONCURRENT_MODIFICATION" [])
unfolding begin in_session
fails = refl

rolled_back : (begin draw_and_fail (idle empty)).1 ≡ idle empty
unfolding begin in_session
rolled_back = refl
