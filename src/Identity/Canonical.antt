-- ===== src/Identity/Canonical.antt =====
-- When two DNIs are the same person.
use padel_bot_api.Prelude.{
  ℕ, zero, suc, ◌≤◌, ◌≡◌, refl, sym, ap, ◌∙◌, ◌↔◌, ◌⊎◌, inl, inr, true, Option, none, some, [], ◌∷◌,
  arith, ◌==◌, ==_iff, length, Bool-cases, subst,
}
use padel_bot_api.Prelude.Text.{Text, eq_of_text_eq, text_eq_refl}
use padel_bot_api.Players.{digits_of}
use padel_bot_api.Identity.{strip_zeros, normalize_digits, normalize_dni, dni_matches, both_equal}

abbrev pub zeros_before : ℕ → Text → Text
zeros_before zero d = d
zeros_before (suc k) d = b'0' ∷ zeros_before k d

-- The same digits, but for zeros at the front of one of them.
abbrev pub AreSameNumber : Text → Text → Type 0
AreSameNumber d e = ((k : ℕ) × (d ≡ zeros_before k e)) ⊎ ((k : ℕ) × (e ≡ zeros_before k d))

-- Seven or eight digits.
abbrev pub HasDniLength : Text → Type 0
HasDniLength d = (7 ≤ length d) × (length d ≤ 8)

strip_zeros-front : (d : Text) → (k : ℕ) × (d ≡ zeros_before k (strip_zeros d))
unfolding strip_zeros
strip_zeros-front [] = (0, refl)
strip_zeros-front (c ∷ []) = (0, refl)
strip_zeros-front (c ∷ d ∷ ds) = elim (Bool-cases (c == b'0')) [
  | inl e ↦
      (let (k, same) = strip_zeros-front (d ∷ ds) in
        (suc k, rw e (ap (λ x. x ∷ d ∷ ds) ((==_iff c b'0').0 e) ∙ ap (λ l. b'0' ∷ l) same)))
  | inr e ↦ (0, rw e refl)
]

-- Zeros in front of a text with a digit are stripped.
strip_zeros-zeros_before :
    (k : ℕ) (d : Text) → 1 ≤ length d → strip_zeros (zeros_before k d) ≡ strip_zeros d
strip_zeros-zeros_before zero d h = refl
strip_zeros-zeros_before (suc k) d h =
    one_zero (zeros_before k d) (long k) ∙ strip_zeros-zeros_before k d h
  where
    one_zero : (e : Text) → 1 ≤ length e → strip_zeros (b'0' ∷ e) ≡ strip_zeros e
    one_zero [] short = absurd (omega arith)
    one_zero (c ∷ e) long = unfold strip_zeros in refl

    long : (k : ℕ) → 1 ≤ length (zeros_before k d)
    long zero = h
    long (suc k) = omega arith

zeros_before-zero : (k : ℕ) (d : Text) → zeros_before k (b'0' ∷ d) ≡ b'0' ∷ zeros_before k d
zeros_before-zero zero d = refl
zeros_before-zero (suc k) d = ap (λ l. b'0' ∷ l) (zeros_before-zero k d)

fronts-AreSameNumber : (k j : ℕ) (d : Text) → AreSameNumber (zeros_before k d) (zeros_before j d)
fronts-AreSameNumber k zero d = inl (k, refl)
fronts-AreSameNumber zero (suc j) d = inr (suc j, refl)
fronts-AreSameNumber (suc k) (suc j) d = elim (fronts-AreSameNumber k j d) [
  | inl (m, same) ↦ inl (m, ap (λ l. b'0' ∷ l) same ∙ sym (zeros_before-zero m (zeros_before j d)))
  | inr (m, same) ↦ inr (m, ap (λ l. b'0' ∷ l) same ∙ sym (zeros_before-zero m (zeros_before k d)))
]

same_of_strip_zeros : (d e : Text) → strip_zeros d ≡ strip_zeros e → AreSameNumber d e
same_of_strip_zeros d e same =
    let (k, front) = strip_zeros-front d in
    let (j, other) = strip_zeros-front e in
    subst (λ x. AreSameNumber x e) (sym (front ∙ ap (zeros_before k) same))
      (subst (λ x. AreSameNumber (zeros_before k (strip_zeros e)) x) (sym other)
        (fronts-AreSameNumber k j (strip_zeros e)))

strip_zeros_of_same :
    (d e : Text) → 1 ≤ length d → 1 ≤ length e → AreSameNumber d e → strip_zeros d ≡ strip_zeros e
strip_zeros_of_same d e hd he (inl (k, same)) =
    ap strip_zeros same ∙ strip_zeros-zeros_before k e he
strip_zeros_of_same d e hd he (inr (k, same)) =
    sym (ap strip_zeros same ∙ strip_zeros-zeros_before k d hd)

both_equal_iff :
    (a b : Option Text) → (both_equal a b ≡ true) ↔ ((d : Text) × (a ≡ some d) × (b ≡ some d))
both_equal_iff none b = (λ h. cc, λ (d, e, f). cc)
both_equal_iff (some x) none = (λ h. cc, λ (d, e, f). cc)
both_equal_iff (some x) (some y) = (
  λ h. (x, refl, ap some (sym (eq_of_text_eq x y h))),
  λ (d, e, f). ground (arith, text_eq_refl d),
)

normalize_dni_cases :
    (a : Option Text) (d : Text)
    → normalize_dni a ≡ some d
    → (x : Text) × (a ≡ some x) × HasDniLength (digits_of x) × (strip_zeros (digits_of x) ≡ d)
unfolding normalize_dni normalize_digits
normalize_dni_cases none d h = absurd (cc)
normalize_dni_cases (some x) d h =
    (x, refl, (ground (arith, h), ground (arith, h)), ground (arith, h))

normalize_dni-some :
    (x : Text)
    → HasDniLength (digits_of x)
    → normalize_dni (some x) ≡ some (strip_zeros (digits_of x))
unfolding normalize_dni normalize_digits
normalize_dni-some x long = ground (arith, long.0, long.1)

-- Two DNIs match exactly when both are there with seven or eight digits, whatever stands between
-- the digits, and these are the same but for zeros at the front of one of them.
pub dni_matches_iff :
    (a b : Option Text)
    → (dni_matches a b ≡ true) ↔ (
        (x : Text) × (y : Text) × (a ≡ some x)
        × (b ≡ some y)
        × HasDniLength (digits_of x)
        × HasDniLength (digits_of y)
        × AreSameNumber (digits_of x) (digits_of y))
unfolding dni_matches
dni_matches_iff a b = (only_if, matching)
  where
    only_if :
        both_equal (normalize_dni a) (normalize_dni b) ≡ true
        → (x : Text) × (y : Text) × (a ≡ some x)
          × (b ≡ some y)
          × HasDniLength (digits_of x)
          × HasDniLength (digits_of y)
          × AreSameNumber (digits_of x) (digits_of y)
    only_if h =
        let (d, left, right) = (both_equal_iff (normalize_dni a) (normalize_dni b)).0 h in
        let (x, is_x, long, canonical) = normalize_dni_cases a d left in
        let (y, is_y, other, same) = normalize_dni_cases b d right in
        (
          x,
          y,
          is_x,
          is_y,
          long,
          other,
          same_of_strip_zeros (digits_of x) (digits_of y) (canonical ∙ sym same),
        )

    matching :
        ((x : Text) × (y : Text) × (a ≡ some x)
          × (b ≡ some y)
          × HasDniLength (digits_of x)
          × HasDniLength (digits_of y)
          × AreSameNumber (digits_of x) (digits_of y))
        → both_equal (normalize_dni a) (normalize_dni b) ≡ true
    matching (x, y, is_x, is_y, long, other, same) =
        (both_equal_iff (normalize_dni a) (normalize_dni b)).1 (
          strip_zeros (digits_of x),
          ap normalize_dni is_x ∙ normalize_dni-some x long,
          ap normalize_dni is_y
              ∙ normalize_dni-some y other
              ∙ ap some (
                  sym (
                    strip_zeros_of_same (digits_of x) (digits_of y) (omega (arith, long.0))
                      (omega (arith, other.0)) same)),
        )
