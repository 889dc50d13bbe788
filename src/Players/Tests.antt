-- ===== src/Players/Tests.antt =====
-- An instance of the theorem on upserts: a player who comes back under another spelling of the phone.
use padel_bot_api.Prelude.{◌≡◌, refl, ◌⊎◌, false, Option, none, some, [], ◌∷◌}
use padel_bot_api.Prelude.Text.{Text, codes, text_eq}
use padel_bot_api.Players.{
  Player, upsert_for_booking, standing_for_phone, normalize_phone, digits_of, find_by_phone,
  update_by_phone,
}
use padel_bot_api.Players.Upsert.{standing-upsert_for_booking}

abbrev luis : Player
luis = record {
  id = 4;
  club_id = 1;
  phone = codes "3511234567";
  name = none;
  dni = none;
  payer_mp_user_id = none;
  no_show_count = 2;
  credit_cents = 5000;
  is_blocked = false;
}

abbrev phone : Option Text
phone = some (codes "351 123-4567")

known : (upsert_for_booking 9 1 phone none none (luis ∷ [])).0 ≡ some 4
unfolding upsert_for_booking normalize_phone digits_of find_by_phone update_by_phone text_eq
known = refl

standing-upsert_for_booking_example :
    (p : Player) × (standing_for_phone 1 phone
        (upsert_for_booking 9 1 phone none none (luis ∷ [])).1
      ≡ some p)
    × (p.id ≡ 4)
    × (((q : Player) × (standing_for_phone 1 phone (luis ∷ []) ≡ some q)
          × (p.credit_cents ≡ q.credit_cents)
          × (p.no_show_count ≡ q.no_show_count)
          × (p.is_blocked ≡ q.is_blocked))
        ⊎ ((standing_for_phone 1 phone (luis ∷ []) ≡ none)
            × (p.credit_cents ≡ 0)
            × (p.no_show_count ≡ 0)
            × (p.is_blocked ≡ false)))
standing-upsert_for_booking_example =
    standing-upsert_for_booking 9 1 4 phone none none (luis ∷ []) known
