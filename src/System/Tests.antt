-- ===== src/System/Tests.antt =====
-- A history of the whole service: a game is published, an administrator makes a festival, someone
-- tries to, and the outbox is drained.
use festival_service.Prelude.{
  String, map, ◌≡◌, refl, false, not, Option, none, some, List, [], ◌∷◌, arith,
}
use festival_service.Datetime.{Datetime, aware}
use festival_service.Exec.{World}
use festival_service.Kafka.{State}
use festival_service.Json.{text, end, field}
use festival_service.Text.{is_space}
use festival_service.Runtime.{Runtime}
use festival_service.Auth.{Decoded, decoded}
use festival_service.Money.Codes.{IsUnicode}
use festival_service.Events.Decode.{loaded}
use festival_service.Samples
use festival_service.Samples.{settings, call, name_of, message, empty_database}
use festival_service.Service.Session.{DatabaseIsValid}
use festival_service.Rest.{fit}
use festival_service.Rest.Histories.{Request}
use festival_service.Rest.Guarded.{create}
use festival_service.System
use festival_service.System.{Event, Message, Batch, request, batch, run}
use festival_service.System.Runs.{Ends, at_rest, run-Ends}

-- Letters are what is no white space.
abbrev rt : Runtime
rt = record Samples.rt { is_alpha = λ c. not (is_space c) }

rt-IsUnicode : IsUnicode rt
rt-IsUnicode = record { upper_upper = λ s. refl; visible = λ c h. ground arith }

abbrev decode : String → Decoded
decode token = decoded "u1" (field "typ" (text "access") (field "role" (text "ADMIN") end))

abbrev published : Message
published = record {
  raw = record { value = loaded message; lossy = "" };
  calls = λ n. call;
  refused = λ letter. none;
}

-- The request to make a festival.
abbrev asked : Option String → Request
asked token = record {
  call = call;
  token = token;
  write = create (
      fit (record { name = "Summer"; description = ""; starts_at = aware 20; ends_at = aware 30 }));
}

abbrev drained : Batch
drained = record { send = λ m. none; locked = λ id. false; now = λ m. aware 12; batch_size = 100 }

abbrev events : List Event
events =
    System.message published
    ∷ request (asked (some "t1"))
    ∷ request (asked none)
    ∷ batch drained
    ∷ []

empty_database-IsValid : DatabaseIsValid rt empty_database
unfolding festival_service.Dict.get
empty_database-IsValid = record { festival_at = λ k row found. ground arith; promotions_load = tt }

run-Ends_example :
    Ends rt rt-IsUnicode settings
      (some decode)
      name_of
      name_of
      "game-events"
      "festival-service"
      []
      5
      (run rt settings
        (some decode)
        name_of
        name_of
        "game-events"
        "festival-service"
        events
        (at_rest empty_database [] 4))
run-Ends_example =
    run-Ends rt rt-IsUnicode settings (some decode) name_of name_of "game-events" "festival-service"
      empty_database [] 4 events empty_database-IsValid (omega arith) tt

-- The administrator's festival is announced, and the announcement is sent.
abbrev sent_at : Option (State World) → Option (List (Option Datetime))
sent_at none = none
sent_at (some s) = some (map (λ m. m.published_at) s.world.committed.outbox)

history_sends :
    sent_at (
      run rt settings
        (some decode)
        name_of
        name_of
        "game-events"
        "festival-service"
        events
        (at_rest empty_database [] 4))
    ≡ some (some (aware 12) ∷ [])
unfolding run festival_service.Consumer.handle_game_published
    festival_service.Repositories.Mapping.state_of_text festival_service.Festival.state_text
history_sends = refl
