-- ===== src/CatalogSync/Prices.antt =====
-- The prices of a promotion, from an event's payload to a row and back.
use festival_service.Prelude.{
  String, ◌≡◌, refl, subst, inl, inr, Option, none, some, arith, Bool-cases,
}
use festival_service.Text.{is_empty}
use festival_service.Json
use festival_service.Json.{Json, Fields, is_truthy}
use festival_service.Errors.{Result, ok, err, money_error, Result-cases}
use festival_service.Runtime.{Runtime}
use festival_service.Call.{Call}
use festival_service.Money
use festival_service.Money.{Money}
use festival_service.Money.Arithmetic.{IsMoney}
use festival_service.Money.Codes.{IsUnicode, from_wire-IsMoney}
use festival_service.Rows.{PromotionSnapshotRow}
use festival_service.Snapshots.{PromotionSnapshot}
use festival_service.Repositories.Mapping.{money_of, to_promotion}
use festival_service.Repositories.Promotions.{upserted, minor_of, code_of}
use festival_service.CatalogSync.Payload.{money, catch_money_error, snapshot_of}

-- An amount that `Money(...)` has built, if there is one.
pub data IsPrice (rt : Runtime) : Option Money → Type 0 where
  absent : IsPrice rt none
  given : (m : Money) → IsMoney rt m → IsPrice rt (some m)

pub record PricesAreMoney (rt : Runtime) (p : PromotionSnapshot) : Type 0 where
  pub list_price : IsPrice rt p.list_price
  pub effective_price : IsPrice rt p.effective_price

module _ (rt : Runtime) where
  -- A price that is written to two columns is read back.
  money_of-IsPrice :
      (price : Option Money)
      → IsPrice rt price
      → (read : Option Money) × (money_of rt (minor_of price) (code_of price) ≡ ok read)
  unfolding money_of
  money_of-IsPrice none p = (none, refl)
  money_of-IsPrice (some m) (given _ valid) = elim (Bool-cases (is_empty m.currency)) [
    | inl blank ↦ (none, rw blank refl)
    | inr code ↦ (some m, rw (code, valid) refl)
  ]

  to_promotion-loads :
      (row : PromotionSnapshotRow)
      → ((l : Option Money) × (money_of rt row.list_price_minor row.list_price_currency ≡ ok l))
      → ((r : Option Money) × (money_of rt row.effective_price_minor row.effective_price_currency
            ≡ ok r))
      → (p : PromotionSnapshot) × (to_promotion rt row ≡ ok p)
  unfolding to_promotion
  to_promotion-loads row (l, lp) (r, ep) = elim (Result-cases (to_promotion rt row)) [
    | inl loads ↦ loads
    | inr (e, fails) ↦ absurd (ground arith)
  ]

  -- The row that `upsert` leaves of a promotion can be read again.
  pub upserted-loads :
      (row : Option PromotionSnapshotRow) (s : PromotionSnapshot)
      → PricesAreMoney rt s
      → (p : PromotionSnapshot) × (to_promotion rt (upserted row s) ≡ ok p)
  unfolding upserted
  upserted-loads none s prices =
      to_promotion-loads _ (money_of-IsPrice s.list_price prices.list_price)
        (money_of-IsPrice s.effective_price prices.effective_price)
  upserted-loads (some row) s prices =
      to_promotion-loads _ (money_of-IsPrice s.list_price prices.list_price)
        (money_of-IsPrice s.effective_price prices.effective_price)

  module _ (unicode : IsUnicode rt) where
    caught-IsPrice :
        (r : Result Money) (price : Option Money)
        → ((m : Money) → r ≡ ok m → IsMoney rt m)
        → catch_money_error r ≡ ok price
        → IsPrice rt price
    caught-IsPrice (ok m) (some n) k h =
        let same : m ≡ n = ground arith in given n (subst (IsMoney rt) same (k m refl))
    caught-IsPrice (ok m) none k h = absent
    caught-IsPrice (err e) none k h = absent
    caught-IsPrice (err money_error) (some n) k h = absurd (ground arith)
    caught-IsPrice (err e) (some n) k h = absurd (ground arith)

    money-IsPrice :
        (v : Option Json) (price : Option Money) → money rt v ≡ ok price → IsPrice rt price
    unfolding money
    money-IsPrice none none h = absent
    money-IsPrice none (some m) h = absurd (ground arith)
    money-IsPrice (some v) price h = elim (Bool-cases (is_truthy (some v))) [
      | inl true_value ↦
          caught-IsPrice (Money.from_wire rt v) price
            (λ m read. from_wire-IsMoney rt unicode v m read) (ground arith)
      | inr false_value ↦
          let nothing : none ≡ price = ground arith in subst (IsPrice rt) nothing absent
    ]

    -- The prices of the snapshot that an event gives are amounts.
    pub snapshot_of-PricesAreMoney :
        (call : Call) (payload : Fields) (promotion_id festival_id game_id : String)
        (s : PromotionSnapshot)
        → snapshot_of rt call payload promotion_id festival_id game_id ≡ ok s
        → PricesAreMoney rt s
    unfolding snapshot_of
    snapshot_of-PricesAreMoney call payload promotion_id festival_id game_id s built =
        elim (Result-cases (money rt (Json.get "list_price" payload))) [
          | inr (e, bad) ↦ absurd (ground arith)
          | inl (l, lp) ↦ elim (Result-cases (money rt (Json.get "effective_price" payload))) [
            | inr (e, bad) ↦ absurd (ground arith)
            | inl (r, ep) ↦ record {
              list_price =
                  let same : l ≡ s.list_price = ground arith in
                  subst (IsPrice rt) same (money-IsPrice (Json.get "list_price" payload) l lp);
              effective_price =
                  let same : r ≡ s.effective_price = ground arith in
                  subst (IsPrice rt) same (money-IsPrice (Json.get "effective_price" payload) r ep);
            }
          ]
        ]
