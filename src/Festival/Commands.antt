-- ===== src/Festival/Commands.antt =====
-- The methods of app/domain/festival.py as one type of commands, and a festival's life: a sequence
-- of calls, where a call that raises leaves the festival as it was.
use festival_service.Prelude.{String, List, [], ◌∷◌}
use festival_service.Datetime.{Datetime}
use festival_service.Errors.{Result, ok, err}
use festival_service.Festival
use festival_service.Festival.{Festival}

pub data Command : Type 0 where
  reschedule : Datetime → Datetime → Datetime → Command
  add_game : String → String → String → String → Datetime → Command
  remove_game : String → Command
  start end_festival cancel : Datetime → Command

unfoldable pub apply : Festival → Command → Result Festival
unfolding Festival.reschedule Festival.add_game Festival.remove_game Festival.start
    Festival.end_festival Festival.cancel
apply f (reschedule starts_at ends_at now) = Festival.reschedule f starts_at ends_at now
apply f (add_game game_id title developer_id added_by now) =
    Festival.add_game f game_id title developer_id added_by now
apply f (remove_game game_id) = Festival.remove_game f game_id
apply f (start now) = Festival.start f now
apply f (end_festival now) = Festival.end_festival f now
apply f (cancel now) = Festival.cancel f now

abbrev pub after : Festival → Result Festival → Festival
after f (ok g) = g
after f (err e) = f

unfoldable pub run : Festival → List Command → Festival
run f [] = f
run f (c ∷ cs) = run (after f (apply f c)) cs
