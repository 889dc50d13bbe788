-- ===== src/Players.antt =====
-- src/players/players.service.ts: a club's players, found by their phone.
pub mod Upsert
pub mod Tests
use padel_bot_api.Prelude.{
  ℕ, Bool, false, ◌&&◌, ◌||◌, Option, none, some, List, [], ◌∷◌, ltb, leb, ◌==◌, if◌then◌else◌,
  length, keep,
}
use padel_bot_api.Prelude.Text.{Text, text_eq}
use mathlib.Core.List.{reverse}

pub record Player : Type 0 where
  pub id : ℕ
  pub club_id : ℕ
  pub phone : Text
  pub name : Option Text
  pub dni : Option Text
  pub payer_mp_user_id : Option Text
  pub no_show_count : ℕ
  pub credit_cents : ℕ
  pub is_blocked : Bool

abbrev pub is_digit : ℕ → Bool
is_digit c = leb b'0' c && leb c b'9'

-- `raw.replace(/\D/g, '')`
unfoldable pub digits_of : Text → Text
digits_of = keep is_digit

-- The white space that `trim` strips.
pub is_white : ℕ → Bool
is_white c =
    (leb 9 c && leb c 13)
    || (c == 32)
    || (c == 0xa0)
    || (c == 0x1680)
    || (leb 0x2000 c && leb c 0x200a)
    || (c == 0x2028)
    || (c == 0x2029)
    || (c == 0x202f)
    || (c == 0x205f)
    || (c == 0x3000)
    || (c == 0xfeff)

pub trim_start : Text → Text
trim_start [] = []
trim_start (c ∷ cs) = if is_white c then trim_start cs else c ∷ cs

pub trim : Text → Text
unfolding trim_start is_white
trim s = reverse (trim_start (reverse (trim_start s)))

-- `s || null`: the empty text counts as none.
abbrev pub non_empty : Option Text → Option Text
non_empty none = none
non_empty (some []) = none
non_empty (some (c ∷ cs)) = some (c ∷ cs)

abbrev pub trimmed : Option Text → Option Text
trimmed none = none
trimmed (some s) = non_empty (some (trim s))

pub normalize_phone : Option Text → Text
unfolding digits_of
normalize_phone none = []
normalize_phone (some s) = digits_of s

-- The row of a club and a phone, which are unique together.
unfoldable pub find_by_phone : ℕ → Text → List Player → Option Player
find_by_phone club_id phone [] = none
find_by_phone club_id phone (p ∷ ps) =
    if (p.club_id == club_id) && text_eq p.phone phone
    then some p
    else find_by_phone club_id phone ps

-- `{ ...(value ? { field: value } : {}) }`
abbrev pub newer : Option Text → Option Text → Option Text
newer none old = old
newer (some v) old = some v

abbrev pub refresh_player : Option Text → Option Text → Player → Player
refresh_player name dni p = record p {
  name = newer (trimmed name) p.name;
  dni = newer (non_empty dni) p.dni;
}

unfoldable pub update_by_phone : ℕ → Text → (Player → Player) → List Player → List Player
update_by_phone club_id phone f [] = []
update_by_phone club_id phone f (p ∷ ps) =
    if (p.club_id == club_id) && text_eq p.phone phone
    then f p ∷ ps
    else p ∷ update_by_phone club_id phone f ps

-- The row that `upsert` creates, under the identifier that the database gives it.
abbrev pub new_player : ℕ → ℕ → Text → Option Text → Option Text → Player
new_player fresh club_id phone name dni = record {
  id = fresh;
  club_id = club_id;
  phone = phone;
  name = trimmed name;
  dni = non_empty dni;
  payer_mp_user_id = none;
  no_show_count = 0;
  credit_cents = 0;
  is_blocked = false;
}

-- A phone of fewer than six digits is unusable.
unfoldable pub upsert_for_booking :
    ℕ → ℕ → Option Text → Option Text → Option Text → List Player → Option ℕ × List Player
upsert_for_booking fresh club_id phone name dni players =
    let normalized = normalize_phone phone in
    if ltb (length normalized) 6
    then (none, players)
    else elim (find_by_phone club_id normalized players) [
      | none ↦ (some fresh, new_player fresh club_id normalized name dni ∷ players)
      | some p ↦ (some p.id, update_by_phone club_id normalized (refresh_player name dni) players)
    ]

unfoldable pub standing_for_phone : ℕ → Option Text → List Player → Option Player
standing_for_phone club_id phone players =
    let normalized = normalize_phone phone in
    if ltb (length normalized) 6 then none else find_by_phone club_id normalized players
