-- ===== src/Festival/Lifecycle.antt =====
-- The life cycle DRAFT → ACTIVE → ENDED (or CANCELLED) of app/domain/festival.py as a step relation.
use festival_service.Prelude.{
  ◌≡◌, refl, sym, subst, ◌⊎◌, inl, inr, ◌↔◌, Bool, true, false, some, List, [], ◌∷◌, arith,
  is_empty,
}
use festival_service.Datetime.{Datetime}
use festival_service.Errors.{Result, ok, err, Raises, conflict_code}
use festival_service.Festival
use festival_service.Festival.{
  Festival, FestivalState, draft, active, ended, cancelled, reason_wrong_state,
}
use festival_service.Festival.Commands.{
  Command, reschedule, add_game, remove_game, start, end_festival, cancel, apply, after, run,
}

pub data Moves : FestivalState → FestivalState → Type 0 where
  starts : Moves draft active
  ends : Moves active ended
  calls_off : Moves draft cancelled
  cuts_short : Moves active cancelled

-- Zero or more moves.
pub data Reaches (s : FestivalState) : FestivalState → Type 0 where
  stays : Reaches s s
  moves : {t u : FestivalState} → Reaches s t → Moves t u → Reaches s u

unfoldable pub is_terminal : FestivalState → Bool
is_terminal ended = true
is_terminal cancelled = true
is_terminal _ = false

start-Moves : (s t : FestivalState) → s ≡ draft → t ≡ active → Moves s t
start-Moves draft active p q = starts
start-Moves _ _ p q = absurd (ground arith)

end-Moves : (s t : FestivalState) → s ≡ active → t ≡ ended → Moves s t
end-Moves active ended p q = ends
end-Moves _ _ p q = absurd (ground arith)

cancel-Moves : (s t : FestivalState) → (s ≡ draft) ⊎ (s ≡ active) → t ≡ cancelled → Moves s t
cancel-Moves draft cancelled p q = calls_off
cancel-Moves active cancelled p q = cuts_short
cancel-Moves _ _ p q = absurd (ground arith)

-- A command that succeeds keeps the state or makes one move of the life cycle.
pub apply-Moves :
    (f : Festival) (c : Command) {g : Festival}
    → apply f c ≡ ok g
    → (g.state ≡ f.state) ⊎ Moves f.state g.state
unfolding apply
apply-Moves f (reschedule s e now) h = inl (ground arith)
apply-Moves f (add_game k t d b now) h = inl (ground arith)
apply-Moves f (remove_game k) h = inl (ground arith)
apply-Moves f (start now) {g} h = inr (start-Moves f.state g.state (ground arith) (ground arith))
apply-Moves f (end_festival now) {g} h =
    inr (end-Moves f.state g.state (ground arith) (ground arith))
apply-Moves f (cancel now) {g} h = inr (cancel-Moves f.state g.state (ground arith) (ground arith))

-- In ENDED and CANCELLED every command is refused as a conflict, with the reason for a wrong state.
apply-terminal :
    (f : Festival) (c : Command)
    → is_terminal f.state ≡ true
    → Raises conflict_code reason_wrong_state (apply f c)
unfolding apply is_terminal
apply-terminal f (reschedule s e now) h = ground arith
apply-terminal f (add_game k t d b now) h = ground arith
apply-terminal f (remove_game k) h = ground arith
apply-terminal f (start now) h = ground arith
apply-terminal f (end_festival now) h = ground arith
apply-terminal f (cancel now) h = ground arith

Reaches-next : {s t u : FestivalState} → Reaches s t → (u ≡ t) ⊎ Moves t u → Reaches s u
Reaches-next {s} r (inl e) = subst (Reaches s) (sym e) r
Reaches-next r (inr m) = moves r m

after-Reaches :
    {s : FestivalState} (f : Festival) (c : Command) (r : Result Festival)
    → apply f c ≡ r
    → Reaches s f.state
    → Reaches s (after f r).state
after-Reaches f c (ok g) e h = Reaches-next h (apply-Moves f c e)
after-Reaches f c (err x) e h = h

run_from-Reaches :
    {s : FestivalState} (f : Festival) (cs : List Command)
    → Reaches s f.state
    → Reaches s (run f cs).state
unfolding run
run_from-Reaches f [] h = h
run_from-Reaches f (c ∷ cs) h =
    run_from-Reaches (after f (apply f c)) cs (after-Reaches f c (apply f c) refl h)

-- After any commands the state is one that the life cycle reaches from the first.
pub run-Reaches : (f : Festival) (cs : List Command) → Reaches f.state (run f cs).state
run-Reaches f cs = run_from-Reaches f cs stays

after_refused :
    (f : Festival) (r : Result Festival) → Raises conflict_code reason_wrong_state r → after f r ≡ f
after_refused f (ok g) h = elim h [ ]
after_refused f (err x) h = refl

-- No command changes anything of a festival that is ENDED or CANCELLED, whatever follows.
pub run-terminal : (f : Festival) (cs : List Command) → is_terminal f.state ≡ true → run f cs ≡ f
unfolding run
run-terminal f [] h = refl
run-terminal f (c ∷ cs) h =
    rw (after_refused f (apply f c) (apply-terminal f c h)) (run-terminal f cs h)

-- `start` opens a festival exactly when it is a DRAFT with a selected game; it then changes the
-- state and `started_at`, and nothing else.
start_iff :
    (f : Festival) (now : Datetime)
    → (Festival.start f now ≡ ok (record f { state = active; started_at = some now }))
      ↔ ((f.state ≡ draft) × (is_empty f.games ≡ false))
unfolding Festival.start
start_iff f now = (λ h. ground arith, λ h. ground arith)
