-- ===== src/Migrate/Discover/Tests.antt =====
-- A directory with two migrations.
use festival_service.Prelude.{String, ◌≡◌, refl, true, List, [], ◌∷◌, All, inl, inr}
use mathlib.Core.List.{Permᴰ}
use festival_service.Migrate.Discover.Order.{OneName, discover-Permᴰ}
use festival_service.Migrate.Discover.{Entry, discover}

abbrev file : String → String → Entry
file name content = record { name = name; is_file = true; content = content }

abbrev listing : List Entry
listing = file "0002_b.sql" "B" ∷ file "README.md" "" ∷ file "0001_a.sql" "A" ∷ []

in_order : discover listing ≡ ("0001_a", "A") ∷ ("0002_b", "B") ∷ []
unfolding discover
in_order = refl

other_way : Permᴰ listing (file "README.md" "" ∷ file "0002_b.sql" "B" ∷ file "0001_a.sql" "A" ∷ [])
other_way = Permᴰ.swap refl refl

one_name : All (λ a. All (OneName a) listing) listing
unfolding OneName
one_name = (
  (inl refl, (inr refl, (inr refl, tt))),
  ((inr refl, (inl refl, (inr refl, tt))), ((inr refl, (inr refl, (inl refl, tt))), tt)),
)

discover-Permᴰ_example :
    discover listing
    ≡ discover (file "README.md" "" ∷ file "0002_b.sql" "B" ∷ file "0001_a.sql" "A" ∷ [])
discover-Permᴰ_example =
    discover-Permᴰ listing
      (file "README.md" "" ∷ file "0002_b.sql" "B" ∷ file "0001_a.sql" "A" ∷ []) other_way one_name
