-- ===== src/Service/Creation.antt =====
-- The use case `FestivalService.create`.
use festival_service.Prelude.{
  String, ◌≡◌, refl, ap, ◌∙◌, ◌⊎◌, inl, inr, true, false, none, some, List, [], arith, subst,
  eq_iff, eq_refl, Bool-cases, ◌==◌,
}
use festival_service.Datetime.{Datetime}
use festival_service.Dict.{set, contains}
use festival_service.Dict.Laws.{get-set}
use festival_service.Errors.{Exception, Result, ok, err, integrity_error, Result-cases}
use festival_service.Exec.{World, continue, ◌>>◌, idle, begin, in_session}
use festival_service.Runtime.{Runtime}
use festival_service.Call.{Settings, Call}
use festival_service.Rows.{Database}
use festival_service.Events
use festival_service.Outbox.{has_event}
use festival_service.Publisher
use festival_service.Festival
use festival_service.Festival.{Festival}
use festival_service.Festival.Invariant.{create-IsValid}
use festival_service.Snapshots.{PromotionSnapshot}
use festival_service.Repositories.Festivals
use festival_service.Repositories.Festivals.{new_row, insert_row}
use festival_service.Repositories.Mapping.{to_festival}
use festival_service.Repositories.RoundTrip.{RowIsValid, state_of_text-state_text}
use festival_service.Sorting.{sort}
use festival_service.Dto.{CreateFestivalRequest, of_detail}
use festival_service.Service.{create, create_block, detail}
use festival_service.Service.Payloads.{created_payload}
use festival_service.Service.Session.{DatabaseIsValid}
use festival_service.Service.Update.{with_event}
use festival_service.Service.Detail.{promotions_in, promotions_in_ok, detail_found}

-- The columns that `add` leaves out take the values of a new festival.
new_row-loads :
    (f : Festival)
    → f.started_at ≡ none
    → f.ended_at ≡ none
    → f.games ≡ []
    → f.version ≡ 0
    → to_festival (new_row f) ≡ ok f
unfolding to_festival new_row sort
new_row-loads f s e g v = ground (arith, state_of_text-state_text f.state)

module _ (festival_id name description : String) (starts_at ends_at : Datetime)
    (created_by : String) (now : Datetime) {f : Festival}
    (created : Festival.create festival_id name description starts_at ends_at created_by now
      ≡ ok f) where
  created_id : f.id ≡ festival_id
  unfolding Festival.create
  created_id = ground arith

  -- The row of a new festival loads as that festival.
  created_loads : to_festival (new_row f) ≡ ok f
  unfolding Festival.create
  created_loads = new_row-loads f (ground arith) (ground arith) (ground arith) (ground arith)

  created-RowIsValid : RowIsValid (new_row f) f
  created-RowIsValid = record {
    loads = created_loads;
    valid = create-IsValid festival_id name description starts_at ends_at created_by now created;
    unique = unfold new_row in tt;
  }

module _ (rt : Runtime) (settings : Settings) (call : Call) (admin_id : String) (d : Database) where
  -- The database with a new festival and its event.
  abbrev with_festival : Festival → Database → Database
  with_festival f s =
      with_event rt settings call f.id
        (some (Events.festival_created, created_payload rt f admin_id))
        (record s { festivals = set f.id (new_row f) s.festivals })

  block_outcome :
      (f : Festival)
      → ((contains f.id d.festivals ≡ true) ⊎ (has_event call.event_id d.outbox ≡ true))
          × ((begin (create_block rt settings call admin_id f) (idle d))
              ≡ (err integrity_error, idle d))
        ⊎ (contains f.id d.festivals ≡ false)
          × (begin (create_block rt settings call admin_id f) (idle d)
              ≡ (ok tt, idle (with_festival f d)))
  unfolding begin create_block Festivals.add insert_row in_session Publisher.enqueue
  block_outcome f = elim (Bool-cases (contains f.id d.festivals)) [
    | inl taken ↦ inl (inl taken, rw taken refl)
    | inr free ↦ elim (Bool-cases (has_event call.event_id d.outbox)) [
      | inl used ↦ inl (inr used, rw (free, used) refl)
      | inr fresh ↦ inr (free, rw (free, fresh) refl)
    ]
  ]

  with_festival-IsValid :
      (f : Festival)
      → DatabaseIsValid rt d
      → RowIsValid (new_row f) f
      → DatabaseIsValid rt (with_festival f d)
  with_festival-IsValid f valid v = record {
    festival_at = λ k row found. elim (Bool-cases (f.id == k)) [
      | inl here ↦
          let stored : some (new_row f) ≡ some row =
            rw (get-set k f.id (new_row f) d.festivals, here) at found in
          let same : new_row f ≡ row = cc in
          (f, subst (λ r. RowIsValid r f) same v, (eq_iff f.id k).0 here)
      | inr elsewhere ↦
          valid.festival_at k row (rw (get-set k f.id (new_row f) d.festivals, elsewhere) at found)
    ];
    promotions_load = valid.promotions_load;
  }

  -- Why a festival is not created.
  pub data NotCreated (request : CreateFestivalRequest) (e : Exception) : Type 0 where
    rejected :
        Festival.create call.new_id request.name request.description request.starts_at
            request.ends_at admin_id call.now
          ≡ err e
        → NotCreated request e
    taken :
        (contains call.new_id d.festivals ≡ true) ⊎ (has_event call.event_id d.outbox ≡ true)
        → e ≡ integrity_error
        → NotCreated request e

  -- A festival that was created.
  pub record Created (request : CreateFestivalRequest) : Type 0 where
    pub festival : Festival
    pub promotions : List PromotionSnapshot
    pub made :
        Festival.create call.new_id request.name request.description request.starts_at
          request.ends_at admin_id call.now
        ≡ ok festival
    pub free : contains call.new_id d.festivals ≡ false
    pub shown : promotions_in rt call.new_id d ≡ ok promotions
    pub result :
        create rt settings call admin_id request (idle d)
        ≡ (ok (of_detail festival promotions), idle (with_festival festival d))
    pub valid : DatabaseIsValid rt (with_festival festival d)

  created_page :
      (f : Festival) (ps : List PromotionSnapshot)
      → to_festival (new_row f) ≡ ok f
      → promotions_in rt f.id d ≡ ok ps
      → detail rt settings f.id (idle (with_festival f d))
        ≡ (ok (of_detail f ps), idle (with_festival f d))
  created_page f ps loads shown =
      detail_found rt settings f.id (with_festival f d)
        (get-set f.id f.id (new_row f) d.festivals ∙ rw eq_refl) loads shown

  -- What `create` answers, from the result of its block.
  create_after :
      (f : Festival) {x : Result (Unit {0}) × World}
      → begin (create_block rt settings call admin_id f) (idle d) ≡ x
      → (begin (create_block rt settings call admin_id f) >> detail rt settings f.id) (idle d)
        ≡ continue x.0 (λ _. detail rt settings f.id) x.1
  create_after f p = ap (λ y. continue y.0 (λ _. detail rt settings f.id) y.1) p

  -- On a valid database `create` either raises, since the domain rejects the request or an id is
  -- taken, and leaves the database exactly as it was; or it stores the festival that the domain
  -- creates, appends FestivalCreated to the outbox, changes nothing else, answers with the page of
  -- the festival, and leaves a valid database.
  pub create_refines :
      (request : CreateFestivalRequest)
      → DatabaseIsValid rt d
      → ((e : Exception) × (create rt settings call admin_id request (idle d) ≡ (err e, idle d))
          × NotCreated request e)
        ⊎ Created request
  unfolding create
  create_refines request valid =
      elim (Result-cases (
        Festival.create call.new_id request.name request.description request.starts_at
          request.ends_at admin_id call.now)) [
            | inr (e, unmade) ↦ inl (e, rw unmade refl, rejected unmade)
            | inl (f, made) ↦
                let same_id : f.id ≡ call.new_id =
                  created_id call.new_id request.name request.description request.starts_at
                    request.ends_at admin_id call.now made in
                let row_valid =
                  created-RowIsValid call.new_id request.name request.description request.starts_at
                    request.ends_at admin_id call.now made in
                elim (block_outcome f) [
                  | inl (why, stopped) ↦ inl (
                    integrity_error,
                    rw made (create_after f stopped),
                    taken (rw same_id at why) refl,
                  )
                  | inr (free, done) ↦
                      let (ps, shown) = promotions_in_ok rt call.new_id d valid in
                      inr (record {
                        festival = f;
                        promotions = ps;
                        made = made;
                        free = rw same_id at free;
                        shown = shown;
                        result = rw made (
                            create_after f done
                            ∙ created_page f ps row_valid.loads (rw same_id shown));
                        valid = with_festival-IsValid f valid row_valid;
                      })
                ]
          ]
