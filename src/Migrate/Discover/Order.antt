-- ===== src/Migrate/Discover/Order.antt =====
-- That the order in which a directory lists its files does not matter to app/platform/migrate.py.
use mathlib.Core.List.{Permᴰ}
use festival_service.Prelude.{
  Bool, true, false, ◌&&◌, ◌==◌, ◌≡◌, refl, sym, ap, subst, ◌∙◌, ◌⊎◌, inl, inr, List, [], ◌∷◌, All,
  Bool-cases, eq_refl, map, arith, if◌then◌else◌,
}
use festival_service.Text.Order.{precedes, precedes_trans, precedes_asym, precedes_total}
use festival_service.Sorting.{insert, sort}
use festival_service.Sorting.Order.{All-imp}
use festival_service.Migrate.Discover.{Entry, is_sql, stem, select, by_name, discover}

-- Of two entries the one comes before the other, or they are the same.
Apart : Entry → Entry → Type 0
Apart a b = (by_name a b ≡ true) ⊎ (by_name b a ≡ true) ⊎ (a ≡ b)

abbrev ordered : Entry → List Entry → List Entry
ordered = insert by_name

insert_comm :
    (a b : Entry) (l : List Entry)
    → by_name a b ≡ true
    → ordered a (ordered b l) ≡ ordered b (ordered a l)
unfolding insert by_name
insert_comm a b [] before =
    let after = precedes_asym a.name b.name before in rw (before, after) refl
insert_comm a b (x ∷ l) before =
    let after = precedes_asym a.name b.name before in
    elim (Bool-cases (precedes b.name x.name)) [
      | inl b_first ↦
          let a_first = precedes_trans a.name b.name x.name before b_first in
          rw (b_first, a_first, before, after, b_first) refl
      | inr x_first ↦ elim (Bool-cases (precedes a.name x.name)) [
        | inl a_first ↦ rw (x_first, a_first, after, x_first) refl
        | inr x_both ↦ rw (x_first, x_both, x_first) (ap (◌∷◌ x) (insert_comm a b l before))
      ]
    ]

-- An entry takes its place among those before it if it is chosen.
abbrev place : Bool → Entry → List Entry → List Entry
place chosen e l = if chosen then ordered e l else l

place_comm :
    (p q : Bool) (a b : Entry) (l : List Entry)
    → Apart a b
    → place p a (place q b l) ≡ place q b (place p a l)
unfolding Apart
place_comm true true a b l (inl before) = insert_comm a b l before
place_comm true true a b l (inr (inl after)) = sym (insert_comm b a l after)
place_comm true true a b l (inr (inr same)) = rw same refl
place_comm true false a b l apart = refl
place_comm false q a b l apart = refl

abbrev chosen : Entry → Bool
chosen e = is_sql e.name && e.is_file

abbrev in_order : List Entry → List Entry
in_order entries = sort by_name (select entries)

in_order-next :
    (e : Entry) (entries : List Entry)
    → in_order (e ∷ entries) ≡ place (chosen e) e (in_order entries)
unfolding select sort
in_order-next e entries = elim (Bool-cases (chosen e)) [
  | inl is_chosen ↦ rw is_chosen refl
  | inr left_out ↦ rw left_out refl
]

All-Permᴰ : {l l' : List Entry} (P : Entry → Type 0) → Permᴰ l l' → All P l → All P l'
All-Permᴰ P Permᴰ.nil h = tt
All-Permᴰ P (Permᴰ.cons same p) h = (subst P same h.0, All-Permᴰ P p h.1)
All-Permᴰ P (Permᴰ.swap first second) h = (subst P second h.1.0, (subst P first h.0, h.1.1))
All-Permᴰ P (Permᴰ.trans p q) h = All-Permᴰ P q (All-Permᴰ P p h)

AllApart : List Entry → Type 0
AllApart l = All (λ a. All (Apart a) l) l

AllApart-Permᴰ : {l l' : List Entry} → Permᴰ l l' → AllApart l → AllApart l'
unfolding AllApart
AllApart-Permᴰ {l} {l'} p h =
    All-Permᴰ (λ a. All (Apart a) l') p
      (All-imp (λ a. All (Apart a) l) (λ a. All (Apart a) l') l (λ a. All-Permᴰ (Apart a) p) h)

in_order-Permᴰ : {l l' : List Entry} → Permᴰ l l' → AllApart l → in_order l ≡ in_order l'
unfolding AllApart
in_order-Permᴰ Permᴰ.nil h = refl
in_order-Permᴰ (Permᴰ.cons {a} {b} {l₁} {l₂} same p) h =
    let rest =
      in_order-Permᴰ p
        (All-imp (λ e. All (Apart e) (a ∷ l₁)) (λ e. All (Apart e) l₁) l₁ (λ e r. r.1) h.1) in
    in_order-next a l₁
    ∙ ap (place (chosen a) a) rest
    ∙ ap (λ e. place (chosen e) e (in_order l₂)) same
    ∙ sym (in_order-next b l₂)
in_order-Permᴰ (Permᴰ.swap {a} {b} {a'} {b'} {l} first second) h =
    in_order-next a (b ∷ l)
    ∙ ap (place (chosen a) a) (in_order-next b l)
    ∙ place_comm (chosen a) (chosen b) a b (in_order l) h.0.1.0
    ∙ ap (λ e. place (chosen b) b (place (chosen e) e (in_order l))) first
    ∙ ap (λ e. place (chosen e) e (place (chosen b') b' (in_order l))) second
    ∙ sym (in_order-next a' (b' ∷ l) ∙ ap (place (chosen a') a') (in_order-next b' l))
in_order-Permᴰ (Permᴰ.trans p q) h = in_order-Permᴰ p h ∙ in_order-Permᴰ q (AllApart-Permᴰ p h)

-- Two entries are the same, or have different names.
unfoldable pub OneName : Entry → Entry → Type 0
OneName a b = (a ≡ b) ⊎ ((a.name == b.name) ≡ false)

OneName-Apart : (a b : Entry) → OneName a b → Apart a b
unfolding OneName Apart by_name
OneName-Apart a b (inl same) = inr (inr same)
OneName-Apart a b (inr differ) = elim (Bool-cases (precedes a.name b.name)) [
  | inl before ↦ inl before
  | inr not_before ↦ elim (Bool-cases (precedes b.name a.name)) [
    | inl after ↦ inr (inl after)
    | inr not_after ↦
        let same = precedes_total a.name b.name not_before not_after in
        let equal : (a.name == b.name) ≡ true = rw same (eq_refl b.name) in absurd (ground arith)
  ]
]

-- The migrations and their order do not depend on the order in which the directory lists its
-- entries, where no two of them have the same name.
pub discover-Permᴰ :
    (entries entries' : List Entry)
    → Permᴰ entries entries'
    → All (λ a. All (OneName a) entries) entries
    → discover entries ≡ discover entries'
unfolding discover AllApart
discover-Permᴰ entries entries' p names = ap (map (λ (e : Entry). (stem e.name, e.content))) (
    in_order-Permᴰ p (
      All-imp (λ a. All (OneName a) entries) (λ a. All (Apart a) entries) entries
        (λ a. All-imp (OneName a) (Apart a) entries (OneName-Apart a)) names))
