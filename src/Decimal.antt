-- ===== src/Decimal.antt =====
-- Python's `decimal.Decimal` as the services use it: finite values `coeff / 10 ^ scale`, exact
-- comparison, and arithmetic under the default context (28 significant digits, ROUND_HALF_EVEN).
-- The algorithms are those that the language's decimal specification gives: an exact result is
-- rounded once. Left out: NaN and infinities (pydantic refuses both for a `Decimal` field),
-- the exponent limits of 999999, and the number of trailing zeros, which only printing shows.
mod Defs
pub mod Order
pub mod Exact
pub mod Division
mod Tests
unfoldable pub use Defs.*
