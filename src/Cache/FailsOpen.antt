-- ===== src/Cache/FailsOpen.antt =====
-- What a read through the cache of app/platform/cache.py answers with.
use festival_service.Prelude.{
  String, ◌≡◌, refl, sym, subst, Bool-cases, ◌⊎◌, inl, inr, Option, none, some, [], ◌∷◌, All,
}
use festival_service.Text.{f_string}
use festival_service.Json.{Json}
use festival_service.Errors.{Result, ok, err}
use festival_service.Exec.{World, Exec}
use festival_service.Cache.{
  Read, unavailable, missing, cached, Client, get_or_set, store, write, Writes, loaded,
}

Read-cases : (r : Read) → (r ≡ unavailable) ⊎ (r ≡ missing) ⊎ ((s : String) × (r ≡ cached s))
Read-cases unavailable = inl refl
Read-cases missing = inr (inl refl)
Read-cases (cached s) = inr (inr (s, refl))

-- What is written is the text of the value, under this key.
abbrev pub Stored : (Json → Option String) → String → Result Json → Writes → Type 0
Stored dumps key r writes =
    All (λ (x : String × String). (x.0 ≡ key) × (v : Json) × (r ≡ ok v) × (dumps v ≡ some x.1))
      writes

module _ (dumps : Json → Option String) (client : Client) (key : String) where
  store_keeps : (r : Result Json × World) → (store dumps client key r).0 ≡ r
  store_keeps (ok value, w) = refl
  store_keeps (err e, w) = refl

  write_lem :
      (value : Json) (o : Option String)
      → dumps value ≡ o
      → Stored dumps key (ok value) (write client key o)
  write_lem value none same = tt
  write_lem value (some s) same = elim (Bool-cases (client.write_fails key s)) [
    | inl lost ↦ rw lost tt
    | inr kept ↦ rw kept ((refl, value, refl, same), tt)
  ]

  store-Stored : (r : Result Json × World) → Stored dumps key r.0 (store dumps client key r).1
  store-Stored (err e, w) = tt
  store-Stored (ok value, w) = write_lem value (dumps value) refl

module _ (loads : String → Option Json) (dumps : Json → Option String) (prefix : String) where
  -- A cached read either does just what computing the answer does, with or without Redis and
  -- whatever becomes of a write, and writes at most the computed answer, under its own key; or it
  -- answers with what the cache holds under that key, without touching the database.
  pub get_or_set_lem :
      (client : Option Client) (key : String) (compute : Exec Json) (w : World)
      → let full_key = f_string (prefix ∷ ":" ∷ key ∷ []) in
        let x = get_or_set loads dumps prefix client key compute w in
        ((x.0 ≡ compute w) × Stored dumps full_key x.0.0 x.1)
        ⊎ ((c : Client) × (s : String) × (client ≡ some c)
            × (c.read full_key ≡ cached s)
            × (x ≡ ((loaded (loads s), w), [])))
  unfolding get_or_set
  get_or_set_lem none key compute w = inl (refl, tt)
  get_or_set_lem (some c) key compute w =
      let full_key = f_string (prefix ∷ ":" ∷ key ∷ []) in
      elim (Read-cases (c.read full_key)) [
        | inl down ↦ rw (get_or_set, down) (inl (refl, tt))
        | inr (inl new) ↦
            rw (get_or_set, new)
              (inl (
                store_keeps dumps c full_key (compute w),
                subst
                    (λ (r : Result Json × World).
                      Stored dumps full_key r.0 (store dumps c full_key (compute w)).1)
                    (sym (store_keeps dumps c full_key (compute w)))
                    (store-Stored dumps c full_key (compute w)),
              ))
        | inr (inr (s, hit)) ↦ rw (get_or_set, hit) (inr (c, s, refl, hit, refl))
      ]
