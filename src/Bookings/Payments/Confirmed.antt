-- ===== src/Bookings/Payments/Confirmed.antt =====
-- What a confirmation of a payment leaves behind.
use padel_bot_api.Prelude.{
  ℕ, ◌≡◌, refl, ap, ◌∙◌, ◌⊎◌, inl, inr, Bool, true, false, not, ◌&&◌, Option, none, some, List, [],
  ◌∷◌, arith, ◌==◌, if◌then◌else◌, is_some, keep,
}
use mathlib.Core.Option
use padel_bot_api.Prelude.Text.{Text}
use padel_bot_api.Prelude.Table.{find, modify, find-modify}
use padel_bot_api.Players.{Player, non_empty, newer}
use padel_bot_api.Bookings.Model.{
  Db, Booking, BookingStatus, Receipt, Event, is_pending, booking_keyed, player_keyed,
}
use padel_bot_api.Bookings.Monad.{ok, pure, ◌>>=◌, ◌>>◌, continue}
use padel_bot_api.Bookings.Payments.{
  PayerInfo, confirm_payment, confirm_data, after_confirm, learn_payer, purge_receipts,
  emit_payment_confirmed,
}
use padel_bot_api.Bookings.Statements.{update_booking_if, emit}

-- A column that takes what was told, unless nothing was.
abbrev pub IsLearned : Option Text → Option Text → Option Text → Type 0
IsLearned told old new =
    ((c : ℕ) × (cs : Text) × (told ≡ some (c ∷ cs)) × (new ≡ some (c ∷ cs)))
    ⊎ (((told ≡ none) ⊎ (told ≡ some [])) × (new ≡ old))

-- The row after the confirmation: confirmed, paid with the reference, with the payer that is known
-- now, and otherwise as before.
pub record IsPaid (payment_ref : Option Text) (payer : PayerInfo) (b c : Booking) : Type 0 where
  pub status : c.status ≡ BookingStatus.confirmed
  pub payment : c.mp_payment_id ≡ payment_ref
  pub cuit : IsLearned payer.cuit b.payer_cuit c.payer_cuit
  pub email : IsLearned payer.email b.payer_email c.payer_email
  pub mp_user : IsLearned payer.mp_user_id b.payer_mp_user_id c.payer_mp_user_id
  pub others :
      record c {
        status = b.status;
        mp_payment_id = b.mp_payment_id;
        payer_cuit = b.payer_cuit;
        payer_email = b.payer_email;
        payer_mp_user_id = b.payer_mp_user_id;
      }
      ≡ b

abbrev pub receipts_of : ℕ → Db → List Receipt
receipts_of j db = keep (λ (r : Receipt). r.booking_id == j) db.receipts

-- The player of the booking, when the transfer tells who paid.
abbrev pub is_learner : PayerInfo → Booking → ℕ → Bool
is_learner payer b q =
    is_some (non_empty payer.mp_user_id) && elim b.player_id [ none ↦ false | some p ↦ p == q ]

abbrev pub knows_payer : PayerInfo → Player → Player
knows_payer payer p = record p { payer_mp_user_id = payer.mp_user_id }

pub record IsConfirmed (i : ℕ) (payment_ref : Option Text) (payer : PayerInfo) (b c : Booking)
    (db after : Db) : Type 0 where
  pub paid : IsPaid payment_ref payer b c
  pub bookings : (j : ℕ) → find j after.bookings ≡ (if i == j then some c else find j db.bookings)
  pub slots : after.slots ≡ db.slots
  pub players :
      (q : ℕ)
      → find q after.players ≡ (
          if is_learner payer b q
          then Option.map (knows_payer payer) (find q db.players)
          else find q db.players)
  pub receipts : (j : ℕ) → receipts_of j after ≡ (if i == j then [] else receipts_of j db)
  pub events :
      after.events ≡ Event.payment_confirmed b.club_id (is_some (non_empty payment_ref)) ∷ db.events

newer-IsLearned : (told old : Option Text) → IsLearned told old (newer (non_empty told) old)
newer-IsLearned none old = inr (inl refl, refl)
newer-IsLearned (some []) old = inr (inr refl, refl)
newer-IsLearned (some (c ∷ cs)) old = inl (c, cs, refl, refl)

confirm_data-IsPaid :
    (payment_ref : Option Text) (payer : PayerInfo) (b : Booking)
    → IsPaid payment_ref payer b (confirm_data payment_ref payer b)
confirm_data-IsPaid payment_ref payer b = record {
  status = refl;
  payment = refl;
  cuit = newer-IsLearned payer.cuit b.payer_cuit;
  email = newer-IsLearned payer.email b.payer_email;
  mp_user = newer-IsLearned payer.mp_user_id b.payer_mp_user_id;
  others = refl;
}

keep-keep :
    (i j : ℕ) (rs : List Receipt)
    → keep (λ (r : Receipt). r.booking_id == j) (keep (λ (r : Receipt). not (r.booking_id == i)) rs)
      ≡ (if i == j then [] else keep (λ (r : Receipt). r.booking_id == j) rs)
keep-keep i j [] = ground arith
keep-keep i j (r ∷ rs) = ground (arith, keep-keep i j rs)

learned_players : Option Text → Option ℕ → List Player → List Player
learned_players told player_id ps = elim (non_empty told) [
  | none ↦ ps
  | some m ↦ elim player_id [
    | none ↦ ps
    | some p ↦ modify p (λ (q : Player). record q { payer_mp_user_id = some m }) ps
  ]
]

find-learned_players :
    (told : Option Text) (player_id : Option ℕ) (q : ℕ) (ps : List Player)
    → find q (learned_players told player_id ps) ≡ (
        if is_some (non_empty told) && elim player_id [ none ↦ false | some p ↦ p == q ]
        then Option.map (λ (p : Player). record p { payer_mp_user_id = told }) (find q ps)
        else find q ps)
unfolding learned_players
find-learned_players none player_id q ps = refl
find-learned_players (some []) player_id q ps = refl
find-learned_players (some (c ∷ cs)) none q ps = refl
find-learned_players (some (c ∷ cs)) (some p) q ps = find-modify p q _ ps (λ r. refl)

learn_payer-row :
    (i : ℕ) (told : Option Text) (c : Booking) (db : Db)
    → find i db.bookings ≡ some c
    → learn_payer i told db
      ≡ (ok tt, record db { players = learned_players told c.player_id db.players })
unfolding learn_payer learned_players
learn_payer-row i none c db e = refl
learn_payer-row i (some []) c db e = refl
learn_payer-row i (some (x ∷ xs)) c db e = ground (arith, e)

emit_payment_confirmed-row :
    (i : ℕ) (payment_ref : Option Text) (c : Booking) (db : Db)
    → find i db.bookings ≡ some c
    → emit_payment_confirmed i payment_ref db ≡ (
      ok tt,
      record db {
        events = Event.payment_confirmed c.club_id (is_some (non_empty payment_ref)) ∷ db.events;
      },
    )
unfolding emit_payment_confirmed emit
emit_payment_confirmed-row i payment_ref c db e = ground (arith, e)

after_confirm-row :
    (i : ℕ) (payment_ref : Option Text) (payer : PayerInfo) (c : Booking) (db : Db)
    → find i db.bookings ≡ some c
    → after_confirm i payment_ref payer true db ≡ (
      ok true,
      record db {
        players = learned_players payer.mp_user_id c.player_id db.players;
        receipts = keep (λ (r : Receipt). not (r.booking_id == i)) db.receipts;
        events = Event.payment_confirmed c.club_id (is_some (non_empty payment_ref)) ∷ db.events;
      },
    )
unfolding after_confirm purge_receipts pure ◌>>=◌
after_confirm-row i payment_ref payer c db e =
    ap
      (λ r.
        continue r.0 (λ _. (do purge_receipts i; emit_payment_confirmed i payment_ref; pure true))
          r.1)
      (learn_payer-row i payer.mp_user_id c db e)
    ∙ ap (λ r. continue r.0 (λ _. pure true) r.1) (emit_payment_confirmed-row i payment_ref c _ e)

confirm_payment-after :
    (i : ℕ) (payment_ref : Option Text) (payer : PayerInfo) (hit : Bool) (db db1 : Db)
    → update_booking_if i (λ b. is_pending b.status) (confirm_data payment_ref payer) db
      ≡ (ok hit, db1)
    → confirm_payment i payment_ref payer db ≡ after_confirm i payment_ref payer hit db1
unfolding confirm_payment ◌>>=◌
confirm_payment-after i payment_ref payer hit db db1 e =
    ap (λ r. continue r.0 (after_confirm i payment_ref payer) r.1) e

confirmed :
    (i : ℕ) (payment_ref : Option Text) (payer : PayerInfo) (b : Booking) (db : Db)
    → find i db.bookings ≡ some b
    → is_pending b.status ≡ true
    → ((confirm_payment i payment_ref payer db).0 ≡ ok true)
      × IsConfirmed i payment_ref payer b
          (confirm_data payment_ref payer b)
          db
          (confirm_payment i payment_ref payer db).1
unfolding update_booking_if
confirmed i payment_ref payer b db e t =
    let db1 : Db = record db { bookings = modify i (confirm_data payment_ref payer) db.bookings } in
    let row : find i db1.bookings ≡ some (confirm_data payment_ref payer b) =
      ground (arith, find-modify i i (confirm_data payment_ref payer) db.bookings (λ x. refl), e) in
    rw
      (confirm_payment-after i payment_ref payer true db db1 (ground arith)
        ∙ after_confirm-row i payment_ref payer (confirm_data payment_ref payer b) db1 row)
      (
        refl,
        record {
          paid = confirm_data-IsPaid payment_ref payer b;
          bookings = λ j.
              ground (
                arith,
                e,
                find-modify i j (confirm_data payment_ref payer) db.bookings (λ x. refl),
              );
          slots = refl;
          players = λ q. find-learned_players payer.mp_user_id b.player_id q db.players;
          receipts = λ j. keep-keep i j db.receipts;
          events = refl;
        },
      )
