-- ===== src/Kafka/Loop.antt =====
-- `Consumer._loop` over the messages that the broker delivers, and where it ends.
use festival_service.Prelude.{
  ◌+◌, String, Bool, true, false, ◌≡◌, refl, inl, inr, Option, none, some, List, [], ◌∷◌,
  Option-cases, subst, sym, ap, arith,
}
use festival_service.Errors.{Exception, Result}
use festival_service.Runtime.{Runtime}
use festival_service.Kafka.{Raw, DeadLetter, Consumer, Router, State, handle_with_retries, consume}
use festival_service.Kafka.Fates.{Fate, handled, ignored, dead_lettered, lost}
use festival_service.Kafka.Accounting.{consume_accounts}

module _ {W : Type 0} (rt : Runtime) (name_of text_of : Exception → String)
    (refused : DeadLetter → Option Exception) (consumer : Consumer) (router : Router W) where
  -- `_loop` over messages, each with the exception that its commit raises, if it does, which ends the
  -- loop: whether the loop goes on, and the state.
  unfoldable pub loop : List (Raw × Option Exception) → State W → Option (Bool × State W)
  unfolding consume handle_with_retries
  loop [] s = some (true, s)
  loop ((raw, none) ∷ messages) s =
      elim (consume rt name_of text_of refused consumer router raw s) [
        | none ↦ none
        | some s' ↦ loop messages s'
      ]
  loop ((raw, some e) ∷ messages) s =
      elim (handle_with_retries rt name_of text_of refused consumer router raw s) [
        | none ↦ none
        | some (r, s') ↦ some (false, s')
      ]

  -- What became of the messages, and whether the loop goes on: each has its fate and is committed,
  -- up to the first one whose commit raises, which has its fate too; those after it are not touched.
  pub data Consumed : List (Raw × Option Exception) → State W → Bool → State W → Type 0 where
    all : {s : State W} → Consumed [] s true s
    next :
        {raw : Raw} {messages : List (Raw × Option Exception)} {s t s' : State W} {goes_on : Bool}
        → Fate rt refused consumer router raw s t
        → t.commits ≡ s.commits + 1
        → Consumed messages t goes_on s'
        → Consumed ((raw, none) ∷ messages) s goes_on s'
    stopped :
        {raw : Raw} {e : Exception} {messages : List (Raw × Option Exception)} {s s' : State W}
        → Fate rt refused consumer router raw s s'
        → s'.commits ≡ s.commits
        → Consumed ((raw, some e) ∷ messages) s false s'

  -- The fate of a message does not depend on the commit.
  uncommitted :
      (raw : Raw) (s t : State W)
      → Fate rt refused consumer router raw s (record t { commits = t.commits + 1 })
      → Fate rt refused consumer router raw s t
  uncommitted raw s t (handled envelope handler last a b c d e f) =
      handled envelope handler last a b c d e f
  uncommitted raw s t (ignored envelope a b c d e) = ignored envelope a b c d e
  uncommitted raw s t (dead_lettered letter a b c) = dead_lettered letter a b c
  uncommitted raw s t (lost e cause same) = lost e cause same

  -- A message is handled to its end.
  Handled : Raw → State W → Type 0
  Handled raw s =
      (out : Result (Unit {0}) × State W) × (handle_with_retries rt name_of text_of refused consumer
          router raw s
        ≡ some out)
      × Fate rt refused consumer router raw s out.1
      × (out.1.commits ≡ s.commits)

  handles : (raw : Raw) (s : State W) → Handled raw s
  unfolding Handled consume
  handles raw s =
      let (s', done, count, fate) =
        consume_accounts rt name_of text_of refused consumer router raw s in
      elim (Option-cases (handle_with_retries rt name_of text_of refused consumer router raw s)) [
        | inl stuck ↦ absurd (ground arith)
        | inr (out, runs) ↦
            let same : record out.1 { commits = out.1.commits + 1 } ≡ s' = ground arith in
            (
              out,
              runs,
              uncommitted raw s out.1
                  (subst (λ t. Fate rt refused consumer router raw s t) (sym same) fate),
              (let counted : out.1.commits + 1 ≡ s'.commits =
                    ap (λ (t : State W). t.commits) same in
                  omega arith),
            )
      ]

  -- The loop gets through every message, up to the first one whose commit raises, and ends there.
  -- Each of these messages was handled, ignored, dead-lettered or lost, as a single one is, and is
  -- committed once but for the last; the messages after it are not touched.
  pub loop_lem :
      (messages : List (Raw × Option Exception)) (s : State W)
      → (goes_on : Bool) × (s' : State W) × (loop messages s ≡ some (goes_on, s'))
        × Consumed messages s goes_on s'
  unfolding loop Handled
  loop_lem [] s = (true, s, refl, all)
  loop_lem ((raw, none) ∷ messages) s =
      let (t, done, count, fate) =
        consume_accounts rt name_of text_of refused consumer router raw s in
      let (goes_on, s', rest, consumed) = loop_lem messages t in
      (goes_on, s', rw (loop, done, rest) refl, next fate count consumed)
  loop_lem ((raw, some e) ∷ messages) s =
      let (out, runs, fate, count) = handles raw s in
      (false, out.1, rw (loop, runs) refl, stopped fate count)
