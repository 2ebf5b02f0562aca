-- ===== src/Text.antt =====
-- JavaScript strings, as lists of UTF-16 code units, with `===`; `String(n)` and the decimal
-- numerals that Redis, `tonumber` of Lua and `parseInt(s, 10)` read back, in the child `Decimal`.
pub mod Decimal
mod Defs
pub use Defs.{Str, codes, ===_iff, ===_refl, ===_ne, ne_of_===}
unfoldable pub use Defs.{◌===◌}
