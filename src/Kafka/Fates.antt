-- ===== src/Kafka/Fates.antt =====
-- The fates of a message, and what a dead letter leads to.
use festival_service.Prelude.{
  ℕ, suc, ◌+◌, ◌≤◌, String, ◌≡◌, refl, ◌⊎◌, inl, inr, false, Option, none, some, [], ◌∷◌, ◌++◌,
  arith, Option-cases,
}
use festival_service.Errors.{Exception, ok, err, malformed_envelope}
use festival_service.Runtime.{Runtime}
use festival_service.Json.{Json, obj, field, text, end}
use festival_service.Events.Decode.{
  Loaded, Unloadable, loaded, not_json, unloadable, exception_of, Received, decode,
}
use festival_service.Kafka.{
  Raw, DeadLetter, Consumer, Handler, Router, State, original_of, letter_of, send, dead_letter,
  undecoded, handler_for,
}
use festival_service.Text.{f_string}
use festival_service.Events.Refusals.{decode-raises}
use festival_service.Kafka.Retries.{after_runs, result_of}

module _ {W : Type 0} (rt : Runtime) (refused : DeadLetter → Option Exception) (consumer : Consumer)
    (router : Router W) (raw : Raw) where
  -- Why a message is neither handled nor dead-lettered: `json.loads` raises what is no
  -- JSONDecodeError, its event type cannot be looked up, or its dead letter cannot be sent.
  pub data Cause (e : Exception) : Type 0 where
    undecodable : (why : Unloadable) → raw.value ≡ unloadable why → e ≡ exception_of why → Cause e
    unroutable :
        (envelope : Received)
        → decode rt raw.value ≡ ok envelope
        → handler_for envelope.event_type router ≡ err e
        → Cause e
    unsendable :
        (letter : DeadLetter)
        → original_of raw ≡ ok letter.original
        → refused letter ≡ some e
        → Cause e

  -- The fate of a message, between the state that it meets and the state that it leaves.
  pub data Fate (s s' : State W) : Type 0 where
    handled :
        (envelope : Received) (handler : Handler W) (last : ℕ)
        → decode rt raw.value ≡ ok envelope
        → handler_for envelope.event_type router ≡ ok (some handler)
        → last ≤ consumer.max_retries
        → result_of handler envelope last s.world ≡ ok tt
        → s'.world ≡ after_runs handler envelope (suc last) s.world
        → s'.dead_letters ≡ s.dead_letters
        → Fate s s'
    ignored :
        (envelope : Received)
        → decode rt raw.value ≡ ok envelope
        → handler_for envelope.event_type router ≡ ok none
        → router.dead_letter_unknown ≡ false
        → s'.world ≡ s.world
        → s'.dead_letters ≡ s.dead_letters
        → Fate s s'
    dead_lettered :
        (letter : DeadLetter)
        → original_of raw ≡ ok letter.original
        → letter.topic ≡ consumer.dlq_topic
        → s'.dead_letters ≡ s.dead_letters ++ letter ∷ []
        → Fate s s'
    lost : (e : Exception) → Cause e → s'.dead_letters ≡ s.dead_letters → Fate s s'

  -- What `_loop` makes of the outcome.
  abbrev pub committed : State W → State W
  committed s = record s { commits = s.commits + 1 }

  Originates : Type 0
  Originates =
      ((why : Unloadable) × (raw.value ≡ unloadable why)
        × (original_of raw ≡ err (exception_of why)))
      ⊎ ((original : Json) × (original_of raw ≡ ok original))

  original_cases : Originates
  unfolding Originates original_of
  original_cases = go raw.value refl
    where
      go : (v : Loaded) → raw.value ≡ v → Originates
      go (loaded v) h = inr (v, ground arith)
      go (not_json e) h = inr (obj (field "raw" (text raw.lossy) end), ground arith)
      go (unloadable why) h = inl (why, h, ground arith)

  pub dead_letter-Fate :
      (reason : String) (s t : State W)
      → t.dead_letters ≡ s.dead_letters
      → Fate s (committed (dead_letter rt refused consumer raw reason t).1)
  unfolding dead_letter send letter_of Originates
  dead_letter-Fate reason s t same = elim original_cases [
    | inl (why, unread, raised) ↦
        lost (exception_of why) (undecodable why unread refl) (ground arith)
    | inr (original, read) ↦ elim (Option-cases (refused (letter_of rt consumer original reason))) [
      | inl sent ↦ dead_lettered (letter_of rt consumer original reason) read refl (ground arith)
      | inr (e, unsent) ↦
          lost e (unsendable (letter_of rt consumer original reason) read unsent) (ground arith)
    ]
  ]

  -- The message of an exception that is no MalformedEnvelope goes no further.
  pub undecoded-Fate :
      (e : Exception) (s : State W)
      → decode rt raw.value ≡ err e
      → Fate s (committed (undecoded rt refused consumer raw e s).1)
  unfolding undecoded
  undecoded-Fate (malformed_envelope m) s failed =
      dead_letter-Fate (f_string ("malformed envelope: " ∷ m ∷ [])) s s refl
  undecoded-Fate e s failed = elim (decode-raises rt raw.value failed) [
    | inl malformed ↦ absurd (ground arith)
    | inr (why, unread, raised) ↦ lost e (undecodable why unread raised) refl
  ]

  pub dead_letter-commits :
      (reason : String) (t : State W)
      → (dead_letter rt refused consumer raw reason t).1.commits ≡ t.commits
  unfolding dead_letter send
  dead_letter-commits reason t = ground arith

  pub undecoded-commits :
      (e : Exception) (t : State W) → (undecoded rt refused consumer raw e t).1.commits ≡ t.commits
  unfolding undecoded
  undecoded-commits (malformed_envelope m) t = dead_letter-commits _ t
  undecoded-commits e t = refl
