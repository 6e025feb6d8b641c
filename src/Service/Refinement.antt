-- ===== src/Service/Refinement.antt =====
-- The use cases of app/application/festival_service.py against their plans: each is refused and
-- leaves the database alone, or carries out one command of the aggregate and appends its event.
use festival_service.Prelude.{String, ◌≡◌, refl, ap, ◌∙◌, ◌⊎◌, inl, inr, some, List, eq_refl}
use festival_service.Dict.{get}
use festival_service.Errors.{Exception, Result, ok, err}
use festival_service.Exec.{World, idle, begin}
use festival_service.Runtime.{Runtime}
use festival_service.Call.{Settings, Call}
use festival_service.Rows.{Database}
use festival_service.Festival.{Festival}
use festival_service.Festival.Commands.{Command, apply}
use festival_service.Snapshots.{PromotionSnapshot}
use festival_service.Repositories.RoundTrip.{apply-Derives}
use festival_service.Dto.{of_detail}
use festival_service.Service.{detail}
use festival_service.Service.Session.{DatabaseIsValid, within}
use festival_service.Service.Update.{Event, Written, Refused, update, update_outcome}
use festival_service.Service.Detail.{promotions_in, promotions_in_ok, detail_found}
use festival_service.Service.Actions.{Action, Plan, perform, plan, planned, perform-planned}
use festival_service.Service.Carried.{Carried, Written-Carried, Written-IsValid}

module _ (rt : Runtime) (settings : Settings) (call : Call) (festival_id admin_id : String) where
  -- A use case that was carried out, and the page that it answers with.
  pub record Done (d : Database) (a : Action) : Type 0 where
    pub d' : Database
    pub command : Command
    pub event : Festival → Event rt settings call
    pub promotions : List PromotionSnapshot
    pub intended : plan rt settings call festival_id admin_id d a ≡ ok (command, event)
    pub carried : Carried rt settings call festival_id command event d d'
    pub shown : promotions_in rt festival_id d ≡ ok promotions
    pub result :
        perform rt settings call festival_id admin_id a (idle d)
        ≡ (ok (of_detail carried.reloaded promotions), idle d')
    pub valid : DatabaseIsValid rt d'

  -- Why a use case is refused: its plan is, or the block that carries it out raises.
  abbrev pub Reason : Database → Action → Exception → Type 0
  Reason d a e =
      (plan rt settings call festival_id admin_id d a ≡ err e)
      ⊎ ((c : Command) × (ev : (Festival → Event rt settings call)) × (plan rt settings call
              festival_id admin_id d a
            ≡ ok (c, ev))
          × Refused rt settings call d festival_id (λ f. apply f c) e)

  module _ (d : Database) (c : Command) (ev : Festival → Event rt settings call) where
    abbrev block : World → Result (Unit {0}) × World
    block = update rt settings call festival_id (λ f. apply f c) ev

    planned_refused :
        {e : Exception} {s : Database}
        → block (within d d) ≡ (err e, within d s)
        → planned rt settings call festival_id admin_id (ok (c, ev)) (idle d) ≡ (err e, idle d)
    unfolding begin
    planned_refused raised = rw raised

    planned_done :
        {s : Database}
        → block (within d d) ≡ (ok tt, within d s)
        → planned rt settings call festival_id admin_id (ok (c, ev)) (idle d)
          ≡ detail rt settings festival_id (idle s)
    unfolding begin
    planned_done done = rw done

  Carried-found :
      (c : Command) (ev : Festival → Event rt settings call) (d d' : Database)
      (x : Carried rt settings call festival_id c ev d d')
      → get festival_id d'.festivals ≡ some x.row'
  Carried-found c ev d d' x = rw (x.festivals festival_id, eq_refl)

  module _ (d : Database) (valid : DatabaseIsValid rt d) where
    -- A plan whose block succeeded.
    finish :
        (a : Action) (c : Command) (ev : Festival → Event rt settings call) (s : Database)
        → plan rt settings call festival_id admin_id d a ≡ ok (c, ev)
        → block d c ev (within d d) ≡ (ok tt, within d s)
        → Written rt settings call d festival_id (λ f. apply f c) ev s
        → Done d a
    finish a c ev s intended done w =
        let carried = Written-Carried rt settings call festival_id c ev d s valid w in
        let (ps, shown) = promotions_in_ok rt festival_id d valid in
        let page =
          detail_found rt settings festival_id s {ps = ps} (Carried-found c ev d s carried)
            carried.loads' (rw carried.promotions shown) in
        record {
          d' = s;
          command = c;
          event = ev;
          promotions = ps;
          intended = intended;
          carried = carried;
          shown = shown;
          result =
              perform-planned rt settings call festival_id admin_id d a
              ∙ ap (λ p. planned rt settings call festival_id admin_id p (idle d)) intended
              ∙ planned_done d c ev done
              ∙ page;
          valid = Written-IsValid rt settings call festival_id c ev d s valid w;
        }

    carry_out :
        (a : Action) (c : Command) (ev : Festival → Event rt settings call)
        → plan rt settings call festival_id admin_id d a ≡ ok (c, ev)
        → ((e : Exception) × (perform rt settings call festival_id admin_id a (idle d)
              ≡ (err e, idle d))
            × Reason d a e)
          ⊎ Done d a
    carry_out a c ev intended =
        elim (update_outcome rt settings call (λ f. apply f c) ev (λ f g. apply-Derives f c) d d
          festival_id valid) [
            | inl (e, s, raised, why) ↦ inl (
              e,
              perform-planned rt settings call festival_id admin_id d a
                  ∙ ap (λ p. planned rt settings call festival_id admin_id p (idle d)) intended
                  ∙ planned_refused d c ev raised,
              inr (c, ev, intended, why),
            )
            | inr (s, done, w) ↦ inr (finish a c ev s intended done w)
          ]

    -- On a valid database every use case either raises, for a reason that its plan, the festival's
    -- own rules or the outbox give, and leaves the database exactly as it was; or it takes the
    -- stored festival through the command of its plan, appends the event of its plan to the
    -- outbox, changes no other row, answers with the page of the festival as it is stored, and
    -- leaves a valid database.
    pub perform_refines :
        (a : Action)
        → ((e : Exception) × (perform rt settings call festival_id admin_id a (idle d)
              ≡ (err e, idle d))
            × Reason d a e)
          ⊎ Done d a
    perform_refines a = go (plan rt settings call festival_id admin_id d a) refl
      where
        go :
            (p : Result (Plan rt settings call festival_id admin_id))
            → plan rt settings call festival_id admin_id d a ≡ p
            → ((e : Exception) × (perform rt settings call festival_id admin_id a (idle d)
                  ≡ (err e, idle d))
                × Reason d a e)
              ⊎ Done d a
        go (err e) refused = inl (
          e,
          perform-planned rt settings call festival_id admin_id d a
              ∙ ap (λ p. planned rt settings call festival_id admin_id p (idle d)) refused,
          inl refused,
        )
        go (ok (c, ev)) intended = carry_out a c ev intended
