-- ===== src/Dict/Laws.antt =====
-- Lookups after each update of a `Dict`.
use festival_service.Prelude.{
  String, ◌≡◌, refl, none, some, [], ◌∷◌, ◌++◌, arith, eq_iff, ◌==◌, if◌then◌else◌,
}
use festival_service.Dict.{Dict, get, set, del, Distinct}

module _ {ℓ} {V : Type ℓ} where
  pub get-set :
      (j k : String) (v : V) (d : Dict V) → get j (set k v d) ≡ (if k == j then some v else get j d)
  unfolding get set
  get-set j k v [] = refl
  get-set j k v ((i, w) ∷ d) = ground (arith, eq_iff k j, eq_iff i k, eq_iff i j, get-set j k v d)

  pub get-del : (j k : String) (d : Dict V) → get j (del k d) ≡ (if k == j then none else get j d)
  unfolding get del
  get-del j k [] = ground arith
  get-del j k ((i, w) ∷ d) = ground (arith, get-del j k d, eq_iff i k, eq_iff i j, eq_iff k j)

  pub set-Distinct : (k : String) (v : V) (d : Dict V) → Distinct d → Distinct (set k v d)
  unfolding get set
  set-Distinct k v [] h = (refl, tt)
  set-Distinct k v ((i, w) ∷ d) h =
      ground (arith, set-Distinct k v d h.1, get-set i k v d, eq_iff i k, eq_iff k i)

  pub del-Distinct : (k : String) (d : Dict V) → Distinct d → Distinct (del k d)
  unfolding get del
  del-Distinct k [] h = tt
  del-Distinct k ((i, w) ∷ d) h = ground (arith, del-Distinct k d h.1, get-del i k d, eq_iff k i)

  -- A key that is absent is appended.
  pub set_absent : (k : String) (v : V) (d : Dict V) → get k d ≡ none → set k v d ≡ d ++ (k, v) ∷ []
  unfolding get set
  set_absent k v [] h = refl
  set_absent k v ((i, w) ∷ d) h = ground (arith, set_absent k v d)

  pub del_absent : (k : String) (d : Dict V) → get k d ≡ none → del k d ≡ d
  unfolding get del
  del_absent k [] h = refl
  del_absent k ((i, w) ∷ d) h = ground (arith, del_absent k d)

  -- Deleting the key that was just added gives the dictionary back.
  pub del-set_absent : (k : String) (v : V) (d : Dict V) → get k d ≡ none → del k (set k v d) ≡ d
  unfolding get set del
  del-set_absent k v [] h = ground (arith, eq_iff k k)
  del-set_absent k v ((i, w) ∷ d) h = ground (arith, del-set_absent k v d, eq_iff i k)
