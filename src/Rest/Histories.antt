-- ===== src/Rest/Histories.antt =====
-- Requests one after the other, to the routes of app/adapters/inbound/rest that change festivals.
use festival_service.Prelude.{String, ◌≡◌, refl, ap, ◌∙◌, inl, inr, ◌⊎◌, Option, List, [], ◌∷◌, All}
use festival_service.Exec.{World, idle}
use festival_service.Runtime.{Runtime}
use festival_service.Call.{Settings, Call}
use festival_service.Rows.{Database}
use festival_service.Service.Session.{DatabaseIsValid}
use festival_service.Auth.{Principal, Decoded, admin}
use festival_service.Auth.Access.{Authenticated}
use festival_service.Rest.{Answer}
use festival_service.Rest.Guarded.{Write, Rejected, Granted, serve, serve_guarded}

-- A request, with its bearer token and with what its call takes from its surroundings.
pub record Request : Type 0 where
  pub call : Call
  pub token : Option String
  pub write : Write

module _ (rt : Runtime) (settings : Settings) (verifier : Option (String → Decoded)) where
  -- The requests in the order in which their transactions commit.
  unfoldable pub serve_all : List Request → World → World
  unfolding serve
  serve_all [] w = w
  serve_all (r ∷ requests) w =
      serve_all requests (serve rt settings verifier r.call r.token r.write w).1

  pub one_step :
      (d : Database) (r : Request)
      → DatabaseIsValid rt d
      → (d' : Database) × ((serve rt settings verifier r.call r.token r.write (idle d)).1 ≡ idle d')
        × DatabaseIsValid rt d'
  one_step d r valid = elim (serve_guarded rt settings verifier r.call d valid r.token r.write) [
    | inl (f, stopped, bad, why) ↦ (d, ap (λ (x : Answer × World). x.1) stopped, valid)
    | inr done ↦ (done.d', ap (λ (x : Answer × World). x.1) done.result, done.valid)
  ]

  -- The request does not come from an administrator.
  abbrev pub IsForeign : Request → Type 0
  IsForeign r = (p : Principal) → Authenticated rt verifier r.token p → p.role ≡ admin → ⊥

  -- Requests that are not authenticated as an administrator's leave a valid database exactly as it
  -- was, however many there are.
  pub serve_all_foreign :
      (d : Database) (requests : List Request)
      → DatabaseIsValid rt d
      → All IsForeign requests
      → serve_all requests (idle d) ≡ idle d
  unfolding serve_all
  serve_all_foreign d [] valid foreign = refl
  serve_all_foreign d (r ∷ requests) valid (here, foreign) =
      ap (serve_all requests)
        (unmoved (serve_guarded rt settings verifier r.call d valid r.token r.write))
      ∙ serve_all_foreign d requests valid foreign
    where
      unmoved :
          Rejected rt settings verifier r.call r.token d r.write
            ⊎ Granted rt settings verifier r.call r.token d r.write
          → (serve rt settings verifier r.call r.token r.write (idle d)).1 ≡ idle d
      unmoved (inl (f, stopped, bad, why)) = ap (λ (x : Answer × World). x.1) stopped
      unmoved (inr done) = absurd (here done.caller done.known done.is_admin)
