-- ===== src/Service/Audience.antt =====
-- The lookup of the audience in `FestivalService.start`.
use festival_service.Prelude.{
  List, ◌⊎◌, inl, inr, ℕ, ◌<◌, String, ◌≡◌, refl, ◌↔◌, none, some, arith,
}
use festival_service.Errors.{Exception, Result-cases, ok, err, value_error}
use festival_service.Exec.{idle, begin, ◌>>=◌}
use festival_service.Runtime.{Runtime}
use festival_service.Call.{Settings, Call}
use festival_service.Rows.{Database}
use festival_service.Directory.{
  Lookup, timed_out, failed, unsent, response, ids_of_body, active_user_ids,
}
use festival_service.Service.{start, audience_of, start_block, detail}

-- The ends of a lookup that raise: no token can be made, or the body of a response below 400 is no
-- JSON.
abbrev pub Blocks : Lookup → Exception → Type 0
Blocks lookup e =
    (lookup ≡ unsent e)
    ⊎ ((status : ℕ) × (status < 400) × (lookup ≡ response status none) × (e ≡ value_error))

module _ (rt : Runtime) where
  -- A timeout, a failed connection, an error status and a body of another shape give an audience.
  active_user_ids-raises_iff :
      (lookup : Lookup) (e : Exception) → (active_user_ids rt lookup ≡ err e) ↔ Blocks lookup e
  unfolding active_user_ids ids_of_body
  active_user_ids-raises_iff timed_out e = (λ h. absurd (ground arith), λ b. ground arith)
  active_user_ids-raises_iff failed e = (λ h. absurd (ground arith), λ b. ground arith)
  active_user_ids-raises_iff (unsent f) e = (λ h. inl (ground arith), λ b. ground arith)
  active_user_ids-raises_iff (response status none) e =
      (λ h. inr (status, ground arith, refl, ground arith), λ b. ground arith)
  active_user_ids-raises_iff (response status (some body)) e =
      (λ h. absurd (ground arith), λ b. ground arith)

  -- Either no token can be made or the body of a response below 400 is no JSON, and then `start`
  -- raises whatever is stored and changes nothing; or the lookup gives an audience, and `start` is
  -- its transaction with that audience, followed by the page of the festival.
  pub start_blocked :
      (settings : Settings) (call : Call) (lookup : Lookup) (festival_id admin_id : String)
      (d : Database)
      → ((e : Exception) × Blocks lookup e
          × (start rt settings call (some lookup) festival_id admin_id (idle d) ≡ (err e, idle d)))
        ⊎ ((audience : List String) × (active_user_ids rt lookup ≡ ok audience)
            × (start rt settings call (some lookup) festival_id admin_id (idle d)
                ≡ (begin (start_block rt settings call festival_id admin_id audience) >>= λ done.
                      detail rt settings festival_id)
                    (idle d)))
  unfolding start audience_of
  start_blocked settings call lookup festival_id admin_id d =
      elim (Result-cases (active_user_ids rt lookup)) [
        | inr (e, raises) ↦ inl (e, (active_user_ids-raises_iff lookup e).0 raises, rw raises refl)
        | inl (audience, found) ↦ inr (audience, found, rw found refl)
      ]
