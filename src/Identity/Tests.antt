-- ===== src/Identity/Tests.antt =====
-- Runs of the identities, and an instance of their theorem.
use padel_bot_api.Prelude.{◌≡◌, refl, ◌↔◌, true, some}
use padel_bot_api.Prelude.Text.{Text, codes}
use padel_bot_api.Identity.{
  normalize_dni, dni_matches, dni_from_identification, normalize_digits, strip_zeros,
}
use padel_bot_api.Identity.Canonical.{dni_matches_iff, HasDniLength, AreSameNumber}
use padel_bot_api.Players.{digits_of}

dni_matches_iff_example :
    (dni_matches (some (codes "12.345.678")) (some (codes "12345678")) ≡ true) ↔ (
      (x : Text) × (y : Text) × (some (codes "12.345.678") ≡ some x)
      × (some (codes "12345678") ≡ some y)
      × HasDniLength (digits_of x)
      × HasDniLength (digits_of y)
      × AreSameNumber (digits_of x) (digits_of y))
dni_matches_iff_example = dni_matches_iff (some (codes "12.345.678")) (some (codes "12345678"))

inside_cuit : dni_from_identification (some (codes "20-12345678-3")) ≡ some (codes "12345678")
unfolding dni_from_identification normalize_dni normalize_digits strip_zeros digits_of
inside_cuit = refl
