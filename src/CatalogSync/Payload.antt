-- ===== src/CatalogSync/Payload.antt =====
-- What app/application/catalog_sync_service.py reads from an event's payload.
use festival_service.Prelude.{String, Option, none, some, [], ◌∷◌, if◌then◌else◌}
use festival_service.Int.{ℤ, pos}
use festival_service.Text.{is_empty, f_string, replace}
use festival_service.Text.Number.{int_of_str}
use festival_service.Datetime.{Datetime}
use festival_service.Json
use festival_service.Json.{Json, Fields, bool, int, float, text, is_truthy, str, get_text}
use festival_service.Errors.{
  Exception, Result, ok, err, invalid_argument, money_error, value_error, type_error, ◌>>=◌,
}
use festival_service.Runtime.{Runtime}
use festival_service.Call.{Call}
use festival_service.Money
use festival_service.Money.{Money}
use festival_service.Snapshots.{PromotionSnapshot}

abbrev pub missing_field : String → Exception
missing_field name = invalid_argument (f_string ("event carried no " ∷ name ∷ [])) "MISSING_FIELD"

-- `_require`
unfoldable pub require : Runtime → Fields → String → Result String
unfolding get_text
require rt payload name =
    let value = get_text rt.repr name payload in
    if is_empty value then err (missing_field name) else ok value

-- `datetime.fromisoformat(...)`
abbrev or_value_error {ℓ} : {A : Type ℓ} → Option A → Result A
or_value_error none = err value_error
or_value_error (some a) = ok a

-- `int(value)`, of a true value
int_of : Runtime → Json → Result ℤ
int_of rt (int n) = ok n
int_of rt (bool b) = ok (pos (if b then 1 else 0))
int_of rt (float s) = or_value_error (rt.int_of_float s)
int_of rt (text s) = or_value_error (int_of_str s)
int_of rt _ = err type_error

-- `int(payload.get("discount_bps") or 0)`
unfoldable pub int_or_zero : Runtime → Option Json → Result ℤ
unfolding int_of is_truthy int_of_str
int_or_zero rt none = ok (pos 0)
int_or_zero rt (some v) = if is_truthy (some v) then int_of rt v else ok (pos 0)

-- `_parse`; `now` is the `datetime.now(UTC)` of a missing value.
unfoldable pub parse : Runtime → Datetime → Option Json → Result Datetime
unfolding is_truthy str replace
parse rt now none = ok now
parse rt now (some v) =
    if is_truthy (some v)
    then or_value_error (rt.fromisoformat (replace "Z" "+00:00" (str rt.repr v)))
    else ok now

-- `except MoneyError: return None`
abbrev pub catch_money_error : Result Money → Result (Option Money)
catch_money_error (ok m) = ok (some m)
catch_money_error (err money_error) = ok none
catch_money_error (err e) = err e

-- `_money`
unfoldable pub money : Runtime → Option Json → Result (Option Money)
unfolding is_truthy
money rt none = ok none
money rt (some v) = if is_truthy (some v) then catch_money_error (Money.from_wire rt v) else ok none

-- The `PromotionSnapshot(...)` of `promotion_event`, its arguments from left to right.
unfoldable pub snapshot_of :
    Runtime → Call → Fields → String → String → String → Result PromotionSnapshot
unfolding get_text int_or_zero parse money Json.get
snapshot_of rt call payload promotion_id festival_id game_id = do
  discount_bps ← int_or_zero rt (Json.get "discount_bps" payload)
  starts_at ← parse rt call.default_starts_at (Json.get "starts_at" payload)
  ends_at ← parse rt call.default_ends_at (Json.get "ends_at" payload)
  list_price ← money rt (Json.get "list_price" payload)
  effective_price ← money rt (Json.get "effective_price" payload)
  ok (record {
    promotion_id = promotion_id;
    festival_id = festival_id;
    game_id = game_id;
    state = get_text rt.repr "state" payload;
    discount_bps = discount_bps;
    starts_at = starts_at;
    ends_at = ends_at;
    list_price = list_price;
    effective_price = effective_price;
    updated_at = call.now;
  })
