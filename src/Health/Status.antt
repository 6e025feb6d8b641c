-- ===== src/Health/Status.antt =====
-- What the report of app/platform/health.py says, whatever the order in which the checks finish.
use mathlib.Core.List.{Memᴰ, Permᴰ}
use festival_service.Prelude.{
  ℕ, String, Bool, true, false, not, ◌&&◌, ◌||◌, ◌==◌, ◌≡◌, refl, sym, ◌∙◌, ap, subst, Option, none,
  some, List, [], ◌∷◌, map, All, if◌then◌else◌, Bool-cases, inl, inr, eq_refl, eq_iff, arith, ◌⊎◌,
}
use festival_service.Dict.{Dict, get, set, Distinct}
use festival_service.Dict.Laws.{get-set}
use festival_service.Health.{
  Ending, returned, timed_out, raising, Probe, result_of, collect, is_down, combine, report, readyz,
}

-- A check that does not return.
abbrev pub fails : Probe → Bool
fails p = elim p.ending [ returned ↦ false | timed_out ↦ true | raising error ↦ true ]

abbrev pub some_fails : List Probe → Bool
some_fails [] = false
some_fails (p ∷ probes) = fails p || some_fails probes

abbrev pub critical_fails : List Probe → Bool
critical_fails [] = false
critical_fails (p ∷ probes) = (p.critical && fails p) || critical_fails probes

-- The status that the probes call for.
abbrev pub overall : List Probe → String
overall probes =
    if critical_fails probes then "DOWN" else if some_fails probes then "DEGRADED" else "UP"

abbrev pub entries : List Probe → Dict Probe
entries probes = map (λ p. (p.name, p)) probes

Permᴰ-Memᴰ : {p : Probe} {l l' : List Probe} → Permᴰ l l' → Memᴰ p l → Memᴰ p l'
Permᴰ-Memᴰ Permᴰ.nil here = here
Permᴰ-Memᴰ (Permᴰ.cons e perm) (Memᴰ.head same) = Memᴰ.head (same ∙ e)
Permᴰ-Memᴰ (Permᴰ.cons e perm) (Memᴰ.tail later) = Memᴰ.tail (Permᴰ-Memᴰ perm later)
Permᴰ-Memᴰ (Permᴰ.swap e e') (Memᴰ.head same) = Memᴰ.tail (Memᴰ.head (same ∙ e))
Permᴰ-Memᴰ (Permᴰ.swap e e') (Memᴰ.tail (Memᴰ.head same)) = Memᴰ.head (same ∙ e')
Permᴰ-Memᴰ (Permᴰ.swap e e') (Memᴰ.tail (Memᴰ.tail later)) = Memᴰ.tail (Memᴰ.tail later)
Permᴰ-Memᴰ (Permᴰ.trans p q) here = Permᴰ-Memᴰ q (Permᴰ-Memᴰ p here)

Permᴰ-absent :
    (k : String) {l l' : List Probe}
    → Permᴰ l l'
    → get k (entries l) ≡ none
    → get k (entries l') ≡ none
unfolding get
Permᴰ-absent k Permᴰ.nil absent = absent
Permᴰ-absent k (Permᴰ.cons {a = a} {b = b} {l₁ = l} {l₂ = l'} e perm) absent =
    elim (Bool-cases (a.name == k)) [
      | inl here ↦ ground arith
      | inr other ↦
          let rest = Permᴰ-absent k perm (rw other at absent) in
          let same : (b.name == k) ≡ false = ap (λ (x : Probe). x.name == k) (sym e) ∙ other in
          rw same rest
    ]
Permᴰ-absent k (Permᴰ.swap {a = a} {b = b} {a' = a'} {b' = b'} {l = l} e e') absent =
    let first : (b'.name == k) ≡ (a.name == k) = ap (λ (x : Probe). x.name == k) (sym e) in
    let second : (a'.name == k) ≡ (b.name == k) = ap (λ (x : Probe). x.name == k) (sym e') in
    rw (first, second) (swap_absent k (a.name == k) (b.name == k) a b (get k (entries l)) absent)
  where
    swap_absent :
        (k : String) (x y : Bool) (a b : Probe) (o : Option Probe)
        → (if x then some a else if y then some b else o) ≡ none
        → (if y then some a' else if x then some b' else o) ≡ none
    swap_absent k true y a b o absent = ground arith
    swap_absent k false true a b o absent = ground arith
    swap_absent k false false a b o absent = absent
Permᴰ-absent k (Permᴰ.trans p q) absent = Permᴰ-absent k q (Permᴰ-absent k p absent)

Permᴰ-Distinct : {l l' : List Probe} → Permᴰ l l' → Distinct (entries l) → Distinct (entries l')
unfolding get
Permᴰ-Distinct Permᴰ.nil distinct = tt
Permᴰ-Distinct (Permᴰ.cons {l₁ = l} {l₂ = l'} e perm) (fresh, distinct) = (
  subst (λ (x : Probe). get x.name (entries l') ≡ none) e (Permᴰ-absent _ perm fresh),
  Permᴰ-Distinct perm distinct,
)
Permᴰ-Distinct (Permᴰ.swap {a = a} {b = b} {a' = a'} {b' = b'} {l = l} e e')
      (fresh, (fresh', distinct)) =
    subst (λ (x : Probe). Distinct (entries (x ∷ b' ∷ l))) e'
      (subst (λ (x : Probe). Distinct (entries (b ∷ x ∷ l))) e
        (turned (Bool-cases (b.name == a.name))))
  where
    turned :
        ((b.name == a.name) ≡ true) ⊎ ((b.name == a.name) ≡ false) → Distinct (entries (b ∷ a ∷ l))
    turned (inl same) = ground arith
    turned (inr other) =
        (ground (arith, eq_iff a.name b.name, eq_iff b.name a.name), (ground arith, distinct))
Permᴰ-Distinct (Permᴰ.trans p q) distinct = Permᴰ-Distinct q (Permᴰ-Distinct p distinct)

collect_other :
    (k : String) (results : Dict (Dict String)) (finished : List Probe)
    → get k (entries finished) ≡ none
    → get k (collect results finished) ≡ get k results
unfolding collect get
collect_other k results [] absent = refl
collect_other k results (p ∷ finished) absent = elim (Bool-cases (p.name == k)) [
  | inl here ↦ ground arith
  | inr other ↦
      collect_other k (set p.name (result_of p) results) finished (ground arith)
      ∙ get-set k p.name _ results
      ∙ rw other refl
]

collect-Memᴰ :
    (p : Probe) (results : Dict (Dict String)) (finished : List Probe)
    → Distinct (entries finished)
    → Memᴰ p finished
    → get p.name (collect results finished) ≡ some (result_of p)
unfolding collect get
collect-Memᴰ p results [] distinct here = elim here [ ]
collect-Memᴰ p results (q ∷ finished) (fresh, distinct) (Memᴰ.head same) =
    subst
      (λ (x : Probe).
        get x.name (collect (set q.name (result_of q) results) finished) ≡ some (result_of x))
      (sym same)
      (collect_other q.name (set q.name (result_of q) results) finished fresh
        ∙ get-set q.name q.name _ results
        ∙ rw eq_refl refl)
collect-Memᴰ p results (q ∷ finished) (fresh, distinct) (Memᴰ.tail later) =
    collect-Memᴰ p (set q.name (result_of q) results) finished distinct later

Ending-cases :
    (e : Ending) → (e ≡ returned) ⊎ (e ≡ timed_out) ⊎ ((error : String) × (e ≡ raising error))
Ending-cases returned = inl refl
Ending-cases timed_out = inr (inl refl)
Ending-cases (raising error) = inr (inr (error, refl))

is_down-fails :
    (p : Probe) (results : Dict (Dict String))
    → get p.name results ≡ some (result_of p)
    → is_down results p ≡ fails p
unfolding is_down result_of get
is_down-fails p results here = elim (Ending-cases p.ending) [
  | inl fine ↦ rw (is_down, here, result_of, fine) refl
  | inr (inl late) ↦ rw (is_down, here, result_of, late) refl
  | inr (inr (error, broken)) ↦ rw (is_down, here, result_of, broken) refl
]

module _ (results : Dict (Dict String)) where
  Seen : List Probe → Type 0
  Seen probes = All (λ p. is_down results p ≡ fails p) probes

  combine_down : (probes : List Probe) → combine results "DOWN" probes ≡ "DOWN"
  unfolding combine
  combine_down [] = refl
  combine_down (p ∷ probes) = let rest = combine_down probes in ground arith

  combine_degraded :
      (probes : List Probe)
      → Seen probes
      → combine results "DEGRADED" probes ≡ (if critical_fails probes then "DOWN" else "DEGRADED")
  unfolding combine Seen
  combine_degraded [] seen = refl
  combine_degraded (p ∷ probes) (here, seen) =
      let rest = combine_degraded probes seen in let down = combine_down probes in ground arith

  combine_up : (probes : List Probe) → Seen probes → combine results "UP" probes ≡ overall probes
  unfolding combine Seen
  combine_up [] seen = refl
  combine_up (p ∷ probes) (here, seen) =
      let rest = combine_up probes seen in
      let degraded = combine_degraded probes seen in let down = combine_down probes in ground arith

  Subset-Seen :
      (probes : List Probe)
      → ((p : Probe) → Memᴰ p probes → is_down results p ≡ fails p)
      → Seen probes
  unfolding Seen
  Subset-Seen [] down = tt
  Subset-Seen (p ∷ probes) down =
      (down p (Memᴰ.head refl), Subset-Seen probes (λ q later. down q (Memᴰ.tail later)))

answer_of :
    (critical any : Bool)
    → ◌≡◌ {A = ℕ}
        (if not ((if critical then "DOWN" else if any then "DEGRADED" else "UP") == "DOWN")
          then 200
          else 503)
        (if critical then 503 else 200)
answer_of true any = refl
answer_of false true = refl
answer_of false false = refl

-- Whatever the order in which the checks finish, where the probes have different names, the report
-- is DOWN if the check of a critical probe failed or timed out, else DEGRADED if the check of
-- another probe did, else UP; and the readiness probe is answered with 503 only in the first case.
pub report_lem :
    (service version : String) (probes finished : List Probe)
    → Distinct (entries probes)
    → Permᴰ probes finished
    → let r = report service version probes finished in
      (r.status ≡ overall probes) × (readyz r ≡ (if critical_fails probes then 503 else 200))
unfolding report readyz
report_lem service version probes finished distinct order =
    let results = collect [] finished in
    let seen = Subset-Seen results probes (λ p here.
      is_down-fails p results
        (collect-Memᴰ p [] finished (Permᴰ-Distinct order distinct) (Permᴰ-Memᴰ order here))) in
    let status = combine_up results probes seen in
    (
      status,
      ap (λ x. if not (x == "DOWN") then 200 else 503) status
          ∙ answer_of (critical_fails probes) (some_fails probes),
    )
