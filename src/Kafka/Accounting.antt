-- ===== src/Kafka/Accounting.antt =====
-- What becomes of a message whose offset `Consumer._loop` commits.
use festival_service.Prelude.{
  ◌+◌, String, ◌≡◌, refl, inl, inr, Option, none, some, arith, Bool-cases,
}
use festival_service.Errors.{Exception, Result, ok, err, Result-cases}
use festival_service.Runtime.{Runtime}
use festival_service.Events.Decode.{Received, decode}
use festival_service.Kafka.{
  Raw, DeadLetter, Consumer, Handler, Router, State, permanent, exhausted, dead_letter, undecoded,
  handler_for, no_handler, dispatch, handle_with_retries, consume,
}
use festival_service.Kafka.Retries.{Settled, retry_settles}
use festival_service.Kafka.Fates.{
  Fate, handled, ignored, lost, Cause, dead_letter-Fate, undecoded-Fate, dead_letter-commits,
  undecoded-commits,
}

module _ {W : Type 0} (rt : Runtime) (name_of text_of : Exception → String)
    (refused : DeadLetter → Option Exception) (consumer : Consumer) (router : Router W)
    (raw : Raw) where
  Settled-Fate :
      (envelope : Received) (handler : Handler W) (s : State W) (out : Result (Unit {0}) × State W)
      → decode rt raw.value ≡ ok envelope
      → handler_for envelope.event_type router ≡ ok (some handler)
      → Settled rt name_of text_of refused consumer handler envelope raw s out
      → Fate rt refused consumer router raw s (record out.1 { commits = out.1.commits + 1 })
  Settled-Fate envelope handler s out decoded routed x = elim x.outcome [
    | inl (worked, same) ↦
        handled envelope handler x.last decoded routed x.bounded worked (rw same refl)
          (rw same refl)
    | inr (inl (e, failed, final, same)) ↦
        rw same
          (dead_letter-Fate rt refused consumer router raw (permanent name_of text_of e) s _ refl)
    | inr (inr (e, failed, again, spent, same)) ↦
        rw same
          (dead_letter-Fate rt refused consumer router raw (exhausted text_of consumer e) s _ refl)
  ]

  Settled-commits :
      (envelope : Received) (handler : Handler W) (s : State W) (out : Result (Unit {0}) × State W)
      → Settled rt name_of text_of refused consumer handler envelope raw s out
      → out.1.commits ≡ s.commits
  Settled-commits envelope handler s out x = elim x.outcome [
    | inl (worked, same) ↦ rw same refl
    | inr (inl (e, failed, final, same)) ↦
        rw same (dead_letter-commits rt refused consumer router raw (permanent name_of text_of e) _)
    | inr (inr (e, failed, again, spent, same)) ↦
        rw same
          (dead_letter-commits rt refused consumer router raw (exhausted text_of consumer e) _)
  ]

  -- A message that has been handled to its end is committed.
  Accounted : State W → Type 0
  Accounted s =
      (s' : State W) × (consume rt name_of text_of refused consumer router raw s ≡ some s')
      × (s'.commits ≡ s.commits + 1)
      × Fate rt refused consumer router raw s s'

  finish :
      (s : State W) (out : Result (Unit {0}) × State W)
      → handle_with_retries rt name_of text_of refused consumer router raw s ≡ some out
      → out.1.commits ≡ s.commits
      → Fate rt refused consumer router raw s (record out.1 { commits = out.1.commits + 1 })
      → Accounted s
  unfolding Accounted consume
  finish s out done kept fate =
      (record out.1 { commits = out.1.commits + 1 }, rw (done, consume) refl, rw kept refl, fate)

  dispatched : (envelope : Received) (s : State W) → decode rt raw.value ≡ ok envelope → Accounted s
  unfolding handle_with_retries dispatch
  dispatched envelope s decoded = elim (Result-cases (handler_for envelope.event_type router)) [
    | inr (e, unroutable) ↦
        finish s (err e, s) (ground arith) refl
          (lost e (Cause.unroutable envelope decoded unroutable) refl)
    | inl (some handler, routed) ↦
        let (out, runs, settled) =
          retry_settles rt name_of text_of refused consumer handler envelope raw s in
        finish s out (ground (arith, runs)) (Settled-commits envelope handler s out settled)
          (Settled-Fate envelope handler s out decoded routed settled)
    | inl (none, unrouted) ↦ elim (Bool-cases router.dead_letter_unknown) [
      | inl kept ↦
          let reason = no_handler rt envelope in
          finish s (dead_letter rt refused consumer raw reason s) (ground arith)
            (dead_letter-commits rt refused consumer router raw reason s)
            (dead_letter-Fate rt refused consumer router raw reason s s refl)
      | inr dropped ↦
          finish s (ok tt, s) (ground arith) refl
            (ignored envelope decoded unrouted dropped refl refl)
    ]
  ]

  -- Every message is consumed in finitely many steps, its offset is committed once, and it has one
  -- of four fates: a handler succeeded on it within the retries that are allowed; it is of a type
  -- that no handler is registered for and such messages are ignored; one dead letter with its
  -- content was sent; or it is lost, which happens only where `json.loads` raises what is no
  -- JSONDecodeError (bytes that are no text, too many digits, too deep a nesting, no bytes), its
  -- event type is a list or a dict, or its dead letter cannot be sent. A commit that fails is left
  -- out.
  pub consume_accounts :
      (s : State W)
      → (s' : State W) × (consume rt name_of text_of refused consumer router raw s ≡ some s')
        × (s'.commits ≡ s.commits + 1)
        × Fate rt refused consumer router raw s s'
  unfolding Accounted handle_with_retries
  consume_accounts s = elim (Result-cases (decode rt raw.value)) [
    | inl (envelope, decoded) ↦ dispatched envelope s decoded
    | inr (e, failed) ↦
        finish s (undecoded rt refused consumer raw e s) (rw (failed, handle_with_retries) refl)
          (undecoded-commits rt refused consumer router raw e s)
          (undecoded-Fate rt refused consumer router raw e s failed)
  ]
