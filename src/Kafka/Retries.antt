-- ===== src/Kafka/Retries.antt =====
-- The retry loop of `Consumer._handle_with_retries`.
use festival_service.Prelude.{
  below_suc, ℕ, zero, suc, ◌+◌, ◌≤◌, ◌<◌, String, ◌≡◌, refl, ◌⊎◌, inl, inr, Bool, true, false,
  Option, some, arith, Bool-cases, ltb,
}
use festival_service.Errors.{Exception, Result, ok, err, Result-cases, is_retryable}
use festival_service.Runtime.{Runtime}
use festival_service.Events.Decode.{Received}
use festival_service.Kafka.{
  Raw, DeadLetter, Consumer, Handler, State, permanent, exhausted, dead_letter, retry,
}

-- A failure that is tried again.
abbrev pub is_retried : Result (Unit {0}) → Bool
is_retried (ok done) = false
is_retried (err e) = is_retryable e

module _ {W : Type 0} (handler : Handler W) (envelope : Received) where
  -- The handlers' world after so many runs of the handler, whatever they gave.
  unfoldable pub after_runs : ℕ → W → W
  after_runs zero w = w
  after_runs (suc n) w = (handler n envelope (after_runs n w)).1

  -- What the run with this number gives.
  abbrev pub result_of : ℕ → W → Result (Unit {0})
  result_of n w = (handler n envelope (after_runs n w)).0

module _ {W : Type 0} (rt : Runtime) (name_of text_of : Exception → String)
    (refused : DeadLetter → Option Exception) (consumer : Consumer) (handler : Handler W)
    (envelope : Received) (raw : Raw) (s : State W) where
  -- The state after so many runs.
  abbrev pub ran : ℕ → State W
  ran n = record s { world = after_runs handler envelope n s.world }

  abbrev pub letter : String → State W → Result (Unit {0}) × State W
  letter = dead_letter rt refused consumer raw

  -- How the loop ends: after the first run that is not a failure to be tried again, or after the
  -- last one that is allowed.
  pub record Settled (out : Result (Unit {0}) × State W) : Type 0 where
    pub last : ℕ
    pub bounded : last ≤ consumer.max_retries
    pub earlier : (j : ℕ) → j < last → is_retried (result_of handler envelope j s.world) ≡ true
    pub outcome :
        (result_of handler envelope last s.world ≡ ok tt) × (out ≡ (ok tt, ran (suc last)))
        ⊎ ((e : Exception) × (result_of handler envelope last s.world ≡ err e)
            × (is_retryable e ≡ false)
            × (out ≡ letter (permanent name_of text_of e) (ran (suc last))))
        ⊎ ((e : Exception) × (result_of handler envelope last s.world ≡ err e)
            × (is_retryable e ≡ true)
            × (last ≡ consumer.max_retries)
            × (out ≡ letter (exhausted text_of consumer e) (ran (suc last))))

  abbrev loop : ℕ → ℕ → Option (Result (Unit {0}) × State W)
  loop fuel n = retry rt name_of text_of refused consumer fuel handler envelope raw n (ran n)

  retry-Settled :
      (fuel n : ℕ)
      → n + fuel ≡ consumer.max_retries + 1
      → 0 < fuel
      → ((j : ℕ) → j < n → is_retried (result_of handler envelope j s.world) ≡ true)
      → (out : Result (Unit {0}) × State W) × (loop fuel n ≡ some out) × Settled out
  unfolding retry after_runs
  retry-Settled zero n total pos earlier = absurd (omega arith)
  retry-Settled (suc fuel) n total pos earlier =
      elim (Result-cases (result_of handler envelope n s.world)) [
        | inl (done, worked) ↦ (
          (ok tt, ran (suc n)),
          ground arith,
          record {
            last = n;
            bounded = omega arith;
            earlier = earlier;
            outcome = inl (worked, refl);
          },
        )
        | inr (e, failed) ↦ elim (Bool-cases (is_retryable e)) [
          | inr final ↦ (
            letter (permanent name_of text_of e) (ran (suc n)),
            ground arith,
            record {
              last = n;
              bounded = omega arith;
              earlier = earlier;
              outcome = inr (inl (e, failed, final, refl));
            },
          )
          | inl again ↦ elim (Bool-cases (ltb consumer.max_retries (suc n))) [
            | inl spent ↦ (
              letter (exhausted text_of consumer e) (ran (suc n)),
              ground arith,
              record {
                last = n;
                bounded = omega arith;
                earlier = earlier;
                outcome = inr (inr (e, failed, again, ground arith, refl));
              },
            )
            | inr left ↦
                let (out, runs, settled) = retry-Settled fuel (suc n) (omega arith) (ground arith) (
                  below_suc (λ j. is_retried (result_of handler envelope j s.world) ≡ true) n
                    earlier (ground arith)) in
                (out, ground arith, settled)
          ]
        ]
      ]

  -- The loop ends, and the handler has run at most `max_retries + 1` times: each run but the last
  -- failed with an exception that is tried again; the last one succeeded, or raised one that is
  -- not, or was the last that is allowed, and then the message goes to the dead-letter topic.
  pub retry_settles :
      (out : Result (Unit {0}) × State W) × (retry rt name_of text_of refused consumer
          (consumer.max_retries + 1)
          handler
          envelope
          raw
          0
          s
        ≡ some out)
      × Settled out
  unfolding after_runs
  retry_settles =
      retry-Settled (consumer.max_retries + 1) 0 (omega arith) (omega arith)
        (λ j h. absurd (omega arith))
