-- ===== src/Money/Codes.antt =====
-- The currency codes of amounts that app/platform/money.py builds.
use festival_service.Prelude.{
  Char, String, ◌≡◌, refl, ap, sym, subst, ◌∙◌, inl, inr, true, false, arith,
}
use festival_service.Int.{ℤ}
use festival_service.Text.{is_space, lstrip, rstrip, strip}
use festival_service.Json.{Json, obj, get, str}
use festival_service.Text.Number.{int_of_str}
use festival_service.Errors.{ok, Result-cases}
use festival_service.Runtime.{Runtime}
use festival_service.Money.{
  Money, new, all_alpha, from_wire, or_money_error, amount_of, currency_of,
}
use festival_service.Money.Arithmetic.{IsMoney}

-- What the Unicode tables of Python promise: a text in upper case is in upper case, and no letter is
-- white space.
pub record IsUnicode (rt : Runtime) : Type 0 where
  pub upper_upper : (s : String) → rt.upper (rt.upper s) ≡ rt.upper s
  pub visible : (c : Char) → rt.is_alpha c ≡ true → is_space c ≡ false

module _ (rt : Runtime) (unicode : IsUnicode rt) where
  lstrip-letters : (s : String) → all_alpha rt s ≡ true → lstrip s ≡ s
  unfolding lstrip all_alpha
  lstrip-letters String.[] h = refl
  lstrip-letters (String.◌∷◌ c s) h = ground (arith, unicode.visible c)

  rstrip-letters : (s : String) → all_alpha rt s ≡ true → rstrip s ≡ s
  unfolding rstrip all_alpha
  rstrip-letters String.[] h = refl
  rstrip-letters (String.◌∷◌ c s) h = ground (arith, unicode.visible c, rstrip-letters s)

  strip-letters : (s : String) → all_alpha rt s ≡ true → strip s ≡ s
  unfolding strip
  strip-letters s h = ap rstrip (lstrip-letters s h) ∙ rstrip-letters s h

  -- An amount that is built can be built again from what it holds.
  pub new-IsMoney :
      (minor : ℤ) (currency : String) (m : Money) → new rt minor currency ≡ ok m → IsMoney rt m
  unfolding new
  new-IsMoney minor currency m built =
      let code : String = rt.upper (strip currency) in
      let letters : all_alpha rt code ≡ true = ground arith in
      let same : rt.upper (strip code) ≡ code =
        ap rt.upper (strip-letters code letters) ∙ unicode.upper_upper (strip currency) in
      let exact : record { minor = minor; currency = code } ≡ m = ground arith in
      subst (IsMoney rt) exact (rw same (built ∙ ap ok (sym exact)))

  -- Also one that is read from the wire.
  pub from_wire-IsMoney : (v : Json) (m : Money) → from_wire rt v ≡ ok m → IsMoney rt m
  unfolding from_wire
  from_wire-IsMoney (obj fs) m h =
      elim (Result-cases (or_money_error (int_of_str (str rt.repr (amount_of fs))))) [
        | inr (e, bad) ↦ absurd (ground arith)
        | inl (minor, amount) ↦ elim (Result-cases (currency_of (get "currency" fs))) [
          | inr (e, bad) ↦ absurd (ground arith)
          | inl (currency, named) ↦ new-IsMoney minor currency m (ground arith)
        ]
      ]
  from_wire-IsMoney _ m h = absurd (ground arith)
