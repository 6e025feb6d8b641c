-- ===== src/Service/Payloads.antt =====
-- The payloads of the events of app/application/festival_service.py, in the order of the dict
-- literals.
use festival_service.Prelude.{String, List}
use festival_service.Dict.{keys}
use festival_service.Json.{Fields, end, field, text, arr, texts}
use festival_service.Runtime.{Runtime}
use festival_service.Festival.{Festival}
use festival_service.Snapshots.{CatalogGameSnapshot}

module _ (rt : Runtime) where
  unfoldable pub created_payload : Festival → String → Fields
  created_payload f admin_id = field "festival_id" (text f.id) (
      field "name" (text f.name) (
        field "starts_at" (text (rt.isoformat f.starts_at)) (
          field "ends_at" (text (rt.isoformat f.ends_at))
            (field "created_by" (text admin_id) end))))

  unfoldable pub started_payload : Festival → String → List String → Fields
  started_payload f admin_id audience = field "festival_id" (text f.id) (
      field "name" (text f.name) (
        field "starts_at" (text (rt.isoformat f.starts_at)) (
          field "ends_at" (text (rt.isoformat f.ends_at)) (
            field "game_ids" (arr (texts (keys f.games)))
              (field "started_by" (text admin_id) (field "audience" (arr (texts audience)) end))))))

unfoldable pub game_added_payload : Festival → CatalogGameSnapshot → String → Fields
game_added_payload f game admin_id = field "festival_id" (text f.id) (
    field "game_id" (text game.game_id) (
      field "title" (text game.title)
        (field "developer_id" (text game.developer_id) (field "added_by" (text admin_id) end))))

unfoldable pub game_removed_payload : Festival → String → String → Fields
game_removed_payload f game_id admin_id =
    field "festival_id" (text f.id)
      (field "game_id" (text game_id) (field "removed_by" (text admin_id) end))

-- The payload of `FestivalEnded` and of `FestivalCancelled`, which name the admin differently.
unfoldable pub closed_payload : String → Festival → String → Fields
closed_payload by f admin_id =
    field "festival_id" (text f.id) (field "name" (text f.name) (field by (text admin_id) end))
