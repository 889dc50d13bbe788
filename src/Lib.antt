-- ===== src/Lib.antt =====
-- padelBot_api: the reservations of a padel club, taken by its desk and by a WhatsApp bot.
--
-- Parts and how they interact. BookingsService (src/bookings/bookings.service.ts) is the core: it reads
-- and writes slots, bookings and players through Prisma, inside interactive transactions where several
-- rows change together. It asks the players service who books, the slot pricing service what a freed
-- slot costs, and the schedule which band of a court a player means. The payments poller hands it the
-- transfers it sees; a cron runs its sweep of expired bookings.
--
-- Files, each with the code that it models:
-- - Prelude: tests, lists, signed numbers, tables keyed by id, and text as the list of its character
--   codes. Service: a method as a function from the state to a result or an exception and the state
--   after it, with transactions that roll back, and the rules by which a method keeps what holds.
-- - Account: src/bookings/lib/account.ts, the bill of a turno (splitEqually, computeAccount) and the
--   player masks of consumos.
-- - Bookings: src/bookings/bookings.service.ts and src/pricing/slot-pricing.service.ts.
--   Bookings/Model has the rows of prisma/schema.prisma that the service uses; Bookings/Monad the
--   methods over them; Bookings/Statements one function for each Prisma statement.
--   Bookings/Lifecycle has book, cancel, reschedule and remove; Bookings/Pending bookPending with Bookings/Amounts;
--   Bookings/Bands bookBand, bookBandPending and rescheduleToBandByPlayer; Bookings/Payments
--   confirmPayment, confirmPaymentByAmount and the revival of expired bookings; Bookings/Expiry
--   cancelPending, rejectPayment, findAndCancelExpiredPending, confirmPaymentManual and the receipts;
--   Bookings/Desk ausencias and attendance, Bookings/Consumos setBookingProducts, Bookings/Bill the account and its payments; Bookings/Repricing repriceSlot.
--   Bookings/Courts is the abstract view of all this, which booking holds which slot, with the atomic
--   changes that the service may make to it; Bookings/Steps and Bookings/Transitions have the rules by
--   which a method is a sequence of them, the Courts modules below each part apply them, and
--   Bookings/History puts the methods in any order. Bookings/Races is about a row that changed after it
--   was read.
-- - Stock: src/stock/stock.service.ts and src/stock/lib/stock-math.ts with the catalog of
--   src/products/products.service.ts. Stock/Model has its rows, Stock/Ledger the building blocks that
--   run in a caller's transaction, Stock/Deltas the quantities by product, Stock/Counter deliveries and
--   counts, Stock/Sales counter sales, Stock/Products the catalog, Stock/History all of them in any
--   order. The kiosk is a part of the database of the bookings, whose setBookingProducts calls
--   applyConsumos.
-- - Recurring: src/recurring-bookings/recurring-bookings.service.ts, on the database of the bookings.
--   Recurring/Weeks has nextOccurrences, Recurring/Apply applyForWeeksAhead, Recurring/Fijos the
--   operations of the desk, with repriceFutureSlots of src/pricing/slot-pricing.service.ts.
-- - SerialQueue: src/common/keyed-serial-queue.ts, the messages of one number one after the other. The
--   promises of the runtime are jobs that wait, run and settle in any order of events.
-- - Pricing: src/availability/lib/pricing.ts. Schedule: src/availability/lib/schedule.ts and the
--   calendar of src/availability/lib/datetime.ts. Players: src/players/players.service.ts. Identity:
--   src/common/identity.ts. Subscription: src/clubs/lib/subscription.ts. Competitions:
--   src/competitions/lib/score.ts, standings.ts, bracket.ts and packIntoWaves of
--   round-robin.ts.
--   Availability: slotsForDate of src/availability/availability.service.ts, on the slots and courts of
--   Bookings/Model.
--
-- Choices. Identifiers are natural numbers, since the code only compares them, and new ones are
-- arguments that have to be fresh. Cents, counts and instants in milliseconds are natural numbers; they
-- are sums, differences that the code keeps from going below 0, and comparisons. A method is one step
-- of a history, its statements in their order; the transactions are also modelled on their own, with
-- the row that was read before as an argument, so that what they do on a database that changed in
-- between can be stated. Prisma's conditional updateMany is one atomic step. The time zone (Intl) and
-- the clock are arguments. The loop of generateBands has as fuel one more than the closing minute,
-- which is enough for a duration of a minute or more, since each round moves the cursor by one at
-- least; the search for a free tag has its 100 rounds; packing
-- has as many waves as pairings, which are enough since each wave places one at least. The doublings
-- of a bracket are bounded by the number of entrants or by the size, which are enough since each adds
-- one at least; the loops over a draw by its length; its rounds by its size, which is halved each time.
--
-- Not modelled: the other services (waitlist,
-- most of competitions), the bot's conversation, the calls to WhatsApp,
-- MercadoPago and the language models, push notifications, storage of receipts, and the read-only lists
-- of the panel.
pub mod Prelude
pub mod Service
pub mod Account
pub mod Stock
pub mod Bookings
pub mod Recurring
pub mod SerialQueue
pub mod Pricing
pub mod Schedule
pub mod Players
pub mod Identity
pub mod Subscription
pub mod Competitions
pub mod Availability
