-- ===== src/Identity.antt =====
-- src/common/identity.ts: DNIs and CUITs, compared by their digits without leading zeros.
pub mod Canonical
pub mod Tests
use padel_bot_api.Prelude.{
  ℕ, zero, suc, Bool, false, ◌||◌, Option, none, some, [], ◌∷◌, ltb, ◌==◌, if◌then◌else◌, length,
}
use padel_bot_api.Prelude.Text.{Text, text_eq}
use padel_bot_api.Players.{digits_of}

-- `String(parseInt(digits, 10))` of a text of digits.
unfoldable pub strip_zeros : Text → Text
strip_zeros [] = []
strip_zeros (c ∷ []) = c ∷ []
strip_zeros (c ∷ d ∷ ds) = if c == b'0' then strip_zeros (d ∷ ds) else c ∷ d ∷ ds

unfoldable pub normalize_digits : Text → Option Text
normalize_digits digits =
    if ltb (length digits) 7 || ltb 8 (length digits) then none else some (strip_zeros digits)

unfoldable pub normalize_dni : Option Text → Option Text
unfolding normalize_digits
normalize_dni none = none
normalize_dni (some raw) = normalize_digits (digits_of raw)

abbrev pub take_text : ℕ → Text → Text
take_text zero s = []
take_text (suc n) [] = []
take_text (suc n) (c ∷ s) = c ∷ take_text n s

abbrev pub drop_text : ℕ → Text → Text
drop_text zero s = s
drop_text (suc n) [] = []
drop_text (suc n) (c ∷ s) = drop_text n s

-- `digits.slice(2, 10)` is the DNI inside a CUIT.
unfoldable pub dni_from_identification : Option Text → Option Text
unfolding normalize_digits
dni_from_identification none = none
dni_from_identification (some number) =
    let digits = digits_of number in
    if length digits == 11
    then normalize_dni (some (take_text 8 (drop_text 2 digits)))
    else normalize_dni (some digits)

abbrev pub both_equal : Option Text → Option Text → Bool
both_equal none o = false
both_equal (some x) none = false
both_equal (some x) (some y) = text_eq x y

unfoldable pub dni_matches : Option Text → Option Text → Bool
dni_matches a b = both_equal (normalize_dni a) (normalize_dni b)
