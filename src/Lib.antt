-- ===== src/Lib.antt =====
-- rent-auto: a model of the decisions of the rental automation in backend/internal.
--
-- The program rents out game items on two platforms (channels `uu` and `eco`). A scheduler runs jobs;
-- the pricing engine decides the terms of a listing; the planner compares the desired shelf with the
-- actual one and the executor carries the difference out through platform adapters; feedback from
-- finished orders and idle listings moves a factor per listing, which the next pricing uses; risk
-- signals of a platform put its channel into a cooldown, which planner jobs and executor respect.
--
-- Parts, files and what they stand for:
-- - `Prelude` shares names, tests on numbers, lists, maps as functions, integers over the native numbers.
-- - `Domain`: domain/domain.go (channels) and the sentinels of platform/adapter.go and uu/client.go. An
--   error is its text with the sentinels that errors.Is finds in its chain.
-- - `Float`: float64 as an interface `Double` of operations with the laws `IsDouble` that the theorems
--   use; `Float.Fixed` is an implementation that meets them. No definition assumes a law.
-- - `Pricing`: pricing/engine.go. `Pricing.Controller` is NextFactor, `Pricing.Baseline` is Baseline,
--   `Pricing.Decide` is Decide, cut into the numbered stages of the source. Texts that fmt prints from
--   floats are `format`, an operation of `Double`.
-- - `Recon`: recon/recon.go with the row types of store/recon.go. `Recon.Want`, `Recon.Publish` and
--   `Recon.Delist` are the three stages of planFrom, `Recon.Plan` is planFrom. Maps are functions to the
--   value or the zero value (association lists with distinct keys where they are walked). `decide` is
--   any function with a state. `Recon.Execute` is Executor.ExecuteWithError over a type `W` of outside
--   worlds; nil callbacks are functions that do nothing or answer yes. It also has PartialIfAnyFailed of platform/adapter.go.
-- - `Scheduler`: scheduler/scheduler.go. Each critical section is one function on the whole table;
--   `Scheduler.Flights` has the goroutines, as a step relation between them; `Scheduler.Clock` is the
--   reading of times of day, with the calendar of package time as a parameter.
-- - `Risk`: the cooldowns of scheduler/jobs_reprice.go.
-- - `Factor`: scheduler/factor.go and the transaction of store/factor.go, which the database carries out
--   whole or not at all.
-- - `Wire`: platform/steam/proto.go, with the varints of encoding/binary. Ten bytes are allowed for a
--   varint, as there, and are enough for 64 bits.
-- - `Delivery`: scheduler/eco_delivery.go, over a type of outside worlds. `Eresult`:
--   platform/steam/eresult.go.
-- - `Reprice`: scheduler/jobs_reprice.go, with the row types of store/reprice.go. `Reprice.Steps` is one
--   function per step of the loop of repriceChannel; it calls Decide, Baseline and the cooldowns of the
--   parts above. A state lists the price actions that are handed to the store and the requests sent.
-- - `Uu`: platform/uu/client.go; `Uu.Endpoints` the calls of endpoints.go and delivery.go that
--   `Uu.Adapter` (adapter.go) and `Uu.Offers` (DeliverPendingRentals) make, `Uu.Lists` the lists and market
--   offers of endpoints.go. Lists are read for at most the 500 pages of the source, by recursion on them.
-- - `Eco`: platform/eco/client.go, `Eco.Signature`: platform/eco/sign.go, `Eco.Adapter`: publishing,
--   repricing and delisting of platform/eco/adapter.go with their calls in endpoints.go.
-- - `Auth.Jwt`: auth/jwt.go. `Auth.Throttle`: the lockout and the budgets of api/handlers_auth.go.
--   `Auth.Session`: the handlers for login, logout and the password, and requireAuth of api/server.go.
-- - `Migrate`: store/migrate.go and store/migrate_apply.go.
-- - `Pace`: ratelimit/ratelimit.go. `Padding`: the PKCS#7 padding of platform/uu/crypto.go.
-- - `Tests` applies the theorems at concrete inputs.
-- Paths are below backend/internal. Counts and instants are natural numbers (instants and durations in
-- nanoseconds), the numbers of the configuration and of the platforms integers. Overflow of 64-bit counts is
-- not modelled: they count listings and orders in memory. Loops are structural recursion on the lists they
-- range over, or on what the source's own limit leaves: ten bytes of a varint, 500 pages, two more
-- attempts of a call, the polls of an offer. No other fuel is needed.
--
-- HTTP, JSON, cryptography, file system and database are records of functions on a type of worlds; what a
-- theorem relies on of them is a record of laws among its hypotheses.
--
-- Not modelled: the SQL of the store other than its transactions above, ParseParams, the gathering of
-- the planner's snapshot, the channel registry, the analytics, the Steam login and confirmations, the
-- sign-in to UU, the other endpoints of ECO, the other handlers of the HTTP interface, the frontend,
-- configuration, secrets and logging. They are queries, network protocols or glue around the parts above.
pub mod Prelude
pub mod Domain
pub mod Float
pub mod Pricing
pub mod Recon
pub mod Scheduler
pub mod Reprice
pub mod Risk
pub mod Factor
pub mod Uu
pub mod Wire
pub mod Migrate
pub mod Pace
pub mod Padding
pub mod Auth
pub mod Delivery
pub mod Eco
pub mod Eresult
mod Tests
