-- ===== src/Rest/Reads.antt =====
-- What the public routes of app/adapters/inbound/rest answer with.
use festival_service.Prelude.{
  ℕ, String, Bool, ◌≡◌, refl, ap, ◌∙◌, ◌⊎◌, inl, inr, Option, none, some, arith, Bool-cases,
  Option-cases,
}
use festival_service.Json.{Json}
use festival_service.Errors.{Result, ok, err, Result-cases}
use festival_service.Exec.{World, Exec, idle, continue, read}
use festival_service.Runtime.{Runtime}
use festival_service.Call.{Settings}
use festival_service.Rows.{Database}
use festival_service.Festival.{FestivalState}
use festival_service.Dto.{FestivalDetailView}
use festival_service.Service
use festival_service.Service.Listing
use festival_service.Service.Listing.{Page}
use festival_service.Repositories.Festivals
use festival_service.Repositories.Promotions
use festival_service.Service.Detail.{promotions_in}
use festival_service.Cache.{Client, Writes, get_or_set}
use festival_service.Cache.FailsOpen.{get_or_set_lem}
use festival_service.Rest.Browse.{as_json, list_festivals, get_festival, list_key, is_page}

continue_keeps :
    {A B : Type 0} (r : Result A) (f : A → B) (w : World)
    → (continue r (λ a w'. (ok (f a), w')) w).1 ≡ w
continue_keeps (ok a) f w = refl
continue_keeps (err e) f w = refl

module _ (rt : Runtime) (settings : Settings) (d : Database) where
  detail_reads : (festival_id : String) → (Service.get rt settings festival_id (idle d)).1 ≡ idle d
  unfolding Service.get Service.detail read Festivals.find Promotions.list_for_festival
  detail_reads festival_id = elim (Result-cases (Festivals.load festival_id d)) [
    | inr (e, bad) ↦ ground arith
    | inl (found, good) ↦ elim (Option-cases found) [
      | inl missing ↦ ground arith
      | inr (f, here) ↦ elim (Result-cases (promotions_in rt festival_id d)) [
        | inl (ps, shown) ↦ ground arith
        | inr (e, bad) ↦ ground arith
      ]
    ]
  ]

  module _ (id_le : String → String → Bool) where
    list_reads :
        (limit offset : ℕ) (state : Option FestivalState)
        → (Listing.list id_le limit offset state (idle d)).1 ≡ idle d
    unfolding Listing.list read festival_service.Repositories.Listing.list
    list_reads limit offset state = continue_keeps _ _ (idle d)

  as_json_reads :
      {A : Type 0} (encode : A → Json) (m : Exec A)
      → (m (idle d)).1 ≡ idle d
      → (as_json encode m (idle d)).1 ≡ idle d
  unfolding as_json
  as_json_reads encode m same = continue_keeps (m (idle d)).0 encode (m (idle d)).1 ∙ same

  -- What comes out of the cache is what it holds, and the database is left alone.
  cached_reads :
      (loads : String → Option Json) (dumps : Json → Option String) (client : Option Client)
      (key : String) (compute : Exec Json)
      → (compute (idle d)).1 ≡ idle d
      → (get_or_set loads dumps settings.service_name client key compute (idle d)).0.1 ≡ idle d
  cached_reads loads dumps client key compute same =
      elim (get_or_set_lem loads dumps settings.service_name client key compute (idle d)) [
        | inl (computed, stored) ↦ ap (λ (x : Result Json × World). x.1) computed ∙ same
        | inr (c, s, given, hit, answer) ↦ ap (λ (x : (Result Json × World) × Writes). x.0.1) answer
      ]

  module _ (id_le : String → String → Bool) (client : Option Client) (loads : String → Option Json)
      (dumps : Json → Option String) where
    -- Neither of the public routes changes the database, whatever is stored there and whatever the
    -- cache does.
    pub browse_reads :
        (encode_page : Page → Json) (encode_detail : FestivalDetailView → Json) (limit offset : ℕ)
        (state : Option FestivalState) (festival_id : String)
        → ((get_festival rt settings id_le client loads dumps encode_detail festival_id
              (idle d)).0.1
            ≡ idle d)
          × ((list_festivals rt settings id_le client loads dumps encode_page limit offset state
                  (idle d)
                ≡ none)
              ⊎ ((x : (Result Json × World) × Writes) × (list_festivals rt settings id_le client
                      loads dumps encode_page limit offset state
                      (idle d)
                    ≡ some x)
                  × (x.0.1 ≡ idle d)))
    unfolding get_festival list_festivals
    browse_reads encode_page encode_detail limit offset state festival_id = (
      cached_reads loads dumps client festival_id
          (as_json encode_detail (Service.get rt settings festival_id))
          (as_json_reads encode_detail (Service.get rt settings festival_id)
            (detail_reads festival_id)),
      elim (Bool-cases (is_page limit offset)) [
        | inr beyond ↦ inl (rw (list_festivals, beyond) refl)
        | inl within ↦ inr (
          get_or_set loads dumps settings.service_name client (list_key limit offset state)
              (as_json encode_page (Listing.list id_le limit offset state)) (idle d),
          rw (list_festivals, within) refl,
          cached_reads loads dumps client (list_key limit offset state)
              (as_json encode_page (Listing.list id_le limit offset state))
              (as_json_reads encode_page (Listing.list id_le limit offset state)
                (list_reads id_le limit offset state)),
        )
      ],
    )
