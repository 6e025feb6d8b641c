-- ===== src/Migrate/Discover.antt =====
-- `_discover` of app/platform/migrate.py: the SQL files of a directory, in the order of their names.
-- What the directory holds is an argument.
pub mod Order
mod Tests
use festival_service.Prelude.{
  String, Bool, ◌-◌, ◌&&◌, Option, none, some, List, [], ◌∷◌, map, leb, if◌then◌else◌,
}
use festival_service.Text.{length, take, ends_with}
use festival_service.Text.Order.{precedes}
use festival_service.Sorting.{sort}
use festival_service.Migrate.{Failure, no_files}

-- An entry of the directory, with what reading it gives.
pub record Entry : Type 0 where
  pub name : String
  pub is_file : Bool
  pub content : String

-- The pattern `*.sql`.
unfoldable pub is_sql : String → Bool
unfolding ends_with
is_sql name = ends_with ".sql" name

-- `Path.stem` of a name that ends in ".sql", which is all of it where nothing stands before the dot.
unfoldable pub stem : String → String
unfolding length take
stem name = if leb (length name) 4 then name else take (length name - 4) name

unfoldable pub select : List Entry → List Entry
unfolding is_sql
select [] = []
select (e ∷ entries) =
    let rest = select entries in if is_sql e.name && e.is_file then e ∷ rest else rest

unfoldable pub by_name : Entry → Entry → Bool
unfolding precedes
by_name a b = precedes a.name b.name

unfoldable pub discover : List Entry → List (String × String)
unfolding sort select by_name stem
discover entries = map (λ (e : Entry). (stem e.name, e.content)) (sort by_name (select entries))
