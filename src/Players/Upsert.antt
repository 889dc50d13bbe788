-- ===== src/Players/Upsert.antt =====
-- What an upsert leaves behind for the reads that follow it.
use padel_bot_api.Prelude.{
  ℕ, ◌≡◌, refl, ◌⊎◌, inl, inr, false, Option, none, some, List, [], ◌∷◌, arith, ltb, Bool-cases,
  Option-cases, length,
}
use padel_bot_api.Prelude.Text.{Text, text_eq_refl}
use padel_bot_api.Players.{
  Player, normalize_phone, find_by_phone, update_by_phone, upsert_for_booking, standing_for_phone,
  refresh_player, new_player,
}

find-update_by_phone :
    (club_id : ℕ) (phone : Text) (f : Player → Player) (ps : List Player)
    → ((p : Player) → ((f p).club_id ≡ p.club_id) × ((f p).phone ≡ p.phone))
    → (p : Player) → find_by_phone club_id phone ps ≡ some p
    → find_by_phone club_id phone (update_by_phone club_id phone f ps) ≡ some (f p)
unfolding find_by_phone update_by_phone
find-update_by_phone club_id phone f [] kept p h = cc
find-update_by_phone club_id phone f (q ∷ ps) kept p h =
    ground (arith, kept q, kept p, find-update_by_phone club_id phone f ps kept p)

-- After an upsert that gives a player, the same phone finds that player, and nothing that decides
-- about bookings has changed: a known player keeps credit, ausencias and block, and a new one
-- starts with none of them.
pub standing-upsert_for_booking :
    (fresh club_id i : ℕ) (phone name dni : Option Text) (ps : List Player)
    → (upsert_for_booking fresh club_id phone name dni ps).0 ≡ some i
    → (p : Player) × (standing_for_phone club_id phone
          (upsert_for_booking fresh club_id phone name dni ps).1
        ≡ some p)
      × (p.id ≡ i)
      × (((q : Player) × (standing_for_phone club_id phone ps ≡ some q)
            × (p.credit_cents ≡ q.credit_cents)
            × (p.no_show_count ≡ q.no_show_count)
            × (p.is_blocked ≡ q.is_blocked))
          ⊎ ((standing_for_phone club_id phone ps ≡ none)
              × (p.credit_cents ≡ 0)
              × (p.no_show_count ≡ 0)
              × (p.is_blocked ≡ false)))
unfolding upsert_for_booking standing_for_phone find_by_phone
standing-upsert_for_booking fresh club_id i phone name dni ps h =
    elim (Bool-cases (ltb (length (normalize_phone phone)) 6)) [
      | inl short ↦ absurd (ground arith)
      | inr long ↦ elim (Option-cases (find_by_phone club_id (normalize_phone phone) ps)) [
        | inl unknown ↦ (
          new_player fresh club_id (normalize_phone phone) name dni,
          ground (arith, text_eq_refl (normalize_phone phone)),
          ground arith,
          inr (ground arith, refl, refl, refl),
        )
        | inr (q, known) ↦ (
          refresh_player name dni q,
          ground (
            arith,
            find-update_by_phone club_id (normalize_phone phone) (refresh_player name dni) ps
                (λ p. (refl, refl)) q known,
          ),
          ground arith,
          inl (q, ground arith, refl, refl, refl),
        )
      ]
    ]
