-- ===== src/Text/Order.antt =====
-- Python's `<` on `str`: the code points, from the left.
use text.Mathlib.TextEquality.{Char-path}
use festival_service.Prelude.{
  code, String, Bool, true, false, ◌&&◌, ◌||◌, ltb, nat_eq, ◌≡◌, refl, arith,
}

unfoldable pub precedes : String → String → Bool
precedes String.[] String.[] = false
precedes String.[] (String.◌∷◌ d t) = true
precedes (String.◌∷◌ c s) String.[] = false
precedes (String.◌∷◌ c s) (String.◌∷◌ d t) =
    let rest = precedes s t in ltb (code c) (code d) || (nat_eq (code c) (code d) && rest)

pub precedes_trans :
    (a b c : String) → precedes a b ≡ true → precedes b c ≡ true → precedes a c ≡ true
unfolding precedes
precedes_trans String.[] String.[] c p q = ground arith
precedes_trans String.[] (String.◌∷◌ y b) String.[] p q = ground arith
precedes_trans String.[] (String.◌∷◌ y b) (String.◌∷◌ z c) p q = refl
precedes_trans (String.◌∷◌ x a) String.[] c p q = ground arith
precedes_trans (String.◌∷◌ x a) (String.◌∷◌ y b) String.[] p q = ground arith
precedes_trans (String.◌∷◌ x a) (String.◌∷◌ y b) (String.◌∷◌ z c) p q =
    let rest = precedes_trans a b c in ground arith

pub precedes_asym : (a b : String) → precedes a b ≡ true → precedes b a ≡ false
unfolding precedes
precedes_asym String.[] String.[] p = refl
precedes_asym String.[] (String.◌∷◌ y b) p = refl
precedes_asym (String.◌∷◌ x a) String.[] p = ground arith
precedes_asym (String.◌∷◌ x a) (String.◌∷◌ y b) p = let rest = precedes_asym a b in ground arith

pub precedes_total : (a b : String) → precedes a b ≡ false → precedes b a ≡ false → a ≡ b
unfolding precedes
precedes_total String.[] String.[] p q = refl
precedes_total String.[] (String.◌∷◌ y b) p q = ground arith
precedes_total (String.◌∷◌ x a) String.[] p q = ground arith
precedes_total (String.◌∷◌ x a) (String.◌∷◌ y b) p q =
    let heads : x ≡ y = Char-path x y (ground arith) in
    let rest = precedes_total a b (ground arith) (ground arith) in cc
