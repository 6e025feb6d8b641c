-- ===== src/Service/Enqueues.antt =====
-- What the use cases of app/application/festival_service.py are made of, and the outbox.
pub mod UseCases
use festival_service.Prelude.{
  String, inl, inr, Bool, not, Option, none, some, List, Bool-cases, Option-cases, nat_eq,
}
use festival_service.Dict.{get, contains}
use festival_service.Errors
use festival_service.Errors.{Exception, Result, ok, err}
use festival_service.Exec.{Exec, lift, pure, begin, ◌>>=◌}
use festival_service.Exec.Keeps.{
  Keeps, Stays, Keeps-in_session, Keeps-query, Keeps-lift, Stays-begin, Stays-read, Keeps-bind,
  Stays-bind,
}
use festival_service.Rows.{Database, OutboxMessage}
use festival_service.Runtime.{Runtime}
use festival_service.Call.{Settings, Call}
use festival_service.Festival.{Festival}
use festival_service.Festival
use festival_service.Events
use festival_service.Json.{Fields}
use festival_service.Dto.{FestivalDetailView, of_detail}
use festival_service.Repositories.Festivals
use festival_service.Repositories.Festivals.{festival_not_found}
use festival_service.Repositories.CatalogGames
use festival_service.Repositories.Promotions
use festival_service.Outbox.History.{OutboxKept, enqueue-Keeps}
use festival_service.Service
use festival_service.Service.{or_raise, load, publish, detail}

module _ (before : List OutboxMessage) where
  pub or_raise-Keeps :
      {A : Type 0} (o : Option A) (e : Exception) → Keeps (OutboxKept before) (or_raise o e)
  or_raise-Keeps none e = Keeps-lift (OutboxKept before) (err e)
  or_raise-Keeps (some a) e = Keeps-lift (OutboxKept before) (ok a)

  load-Keeps : (festival_id : String) → Keeps (OutboxKept before) (load festival_id)
  unfolding load Festivals.get_for_update
  load-Keeps festival_id =
      Keeps-bind (OutboxKept before) _ _ (Keeps-query (OutboxKept before) _)
        (λ found. or_raise-Keeps found _)

  write-OutboxKept :
      (f : Festival) (d : Database)
      → OutboxKept before d
      → OutboxKept before (Festivals.write f d).1
  unfolding Festivals.write
  write-OutboxKept f d kept = elim (Option-cases (get f.id d.festivals)) [
    | inl missing ↦ rw (Festivals.write, missing) kept
    | inr (row, found) ↦ elim (Bool-cases (not (nat_eq row.version f.version))) [
      | inl stale ↦ rw (Festivals.write, found, stale) kept
      | inr current ↦ rw (Festivals.write, found, current) kept
    ]
  ]

  save-Keeps : (f : Festival) → Keeps (OutboxKept before) (Festivals.save f)
  unfolding Festivals.save
  save-Keeps f = Keeps-in_session (OutboxKept before) _ (λ s kept. write-OutboxKept f s kept)

  insert_row-OutboxKept :
      (f : Festival) (d : Database)
      → OutboxKept before d
      → OutboxKept before (Festivals.insert_row f d).1
  unfolding Festivals.insert_row
  insert_row-OutboxKept f d kept = elim (Bool-cases (contains f.id d.festivals)) [
    | inl taken ↦ rw taken kept
    | inr free ↦ rw free kept
  ]

  pub add-Keeps : (f : Festival) → Keeps (OutboxKept before) (Festivals.add f)
  unfolding Festivals.add
  add-Keeps f = Keeps-in_session (OutboxKept before) _ (λ s kept. insert_row-OutboxKept f s kept)

  -- A festival that is loaded, changed, saved and then published about.
  pub changed-Keeps :
      (festival_id : String) (change : Festival → Result Festival)
      (end : Festival → Exec (Unit {0}))
      → ((f : Festival) → Keeps (OutboxKept before) (end f))
      → Keeps
          (OutboxKept before)
          (load festival_id >>= λ f. lift (change f) >>= λ g. Festivals.save g >>= end)
  changed-Keeps festival_id change end last =
      let H = OutboxKept before in
      Keeps-bind H _ _ (load-Keeps festival_id) (λ f.
        Keeps-bind H _ _ (Keeps-lift H (change f)) (λ g. Keeps-bind H _ _ (save-Keeps g) last))

  module _ (rt : Runtime) (settings : Settings) (call : Call) where
    pub publish-Keeps :
        (event_type festival_id : String) (payload : Fields)
        → Keeps (OutboxKept before) (publish rt settings call event_type festival_id payload)
    publish-Keeps event_type festival_id payload =
        enqueue-Keeps before rt settings call event_type Events.aggregate_festival festival_id
          payload

    -- The reads behind the detail page.
    abbrev page_of : String → Exec FestivalDetailView
    page_of festival_id = do
      found ← Festivals.find festival_id
      festival ← or_raise found (festival_not_found festival_id)
      promotions ← Promotions.list_for_festival rt festival_id
      pure (of_detail festival promotions)

    page_of-Keeps : (festival_id : String) → Keeps (OutboxKept before) (page_of festival_id)
    unfolding Festivals.find Promotions.list_for_festival
    page_of-Keeps festival_id =
        let H = OutboxKept before in
        Keeps-bind H _ _ (Keeps-query H _) (λ found.
          Keeps-bind H _ _ (or_raise-Keeps found _)
            (λ f. Keeps-bind H _ _ (Keeps-query H _) (λ ps. Keeps-lift H (ok _))))

    detail-Stays :
        (festival_id : String) → Stays (OutboxKept before) (detail rt settings festival_id)
    unfolding detail
    detail-Stays festival_id =
        Stays-read (OutboxKept before) (page_of festival_id) (page_of-Keeps festival_id)

    -- A transaction, and the page that answers to it.
    pub answered-Stays :
        (block : Exec (Unit {0})) (festival_id : String)
        → Keeps (OutboxKept before) block
        → Stays (OutboxKept before) (begin block >>= λ done. detail rt settings festival_id)
    answered-Stays block festival_id k =
        let H = OutboxKept before in
        Stays-bind H _ _ (Stays-begin H block k) (λ done. detail-Stays festival_id)
