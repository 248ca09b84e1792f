-- ===== src/Metrics.antt =====
-- server/web/lib/utils/metrics.ts: `formatBytes`, up to the print of its number by the browser, for a
-- value that is a whole number of bytes. The source divides by 1024 in its loop, which is exact in
-- doubles; the model keeps the value and the count of divisions.
pub mod Laws
use poolx.Common.{
  ℕ, zero, suc, ◌*◌, ◌^◌, Bool, true, false, ◌&&◌, ◌||◌, Option, none, some, String, if◌then◌else◌,
  leb, ltb, ◌==◌, nat_eq,
}

-- What is shown: a text of its own, or the value divided by a power of 1024, with at most `digits`
-- digits after the point, and the unit at that index.
pub data Formatted : Type 0 where
  text : String → Formatted
  number : (value : ℕ) (index : ℕ) (digits : ℕ) → Formatted

-- The units are B, KB, MB, GB and TB.
abbrev pub last_index : ℕ
last_index = 4

-- The condition of the loop: `current >= 1024 && index < units.length - 1`.
unfoldable pub goes_on : (value index : ℕ) → Bool
goes_on value index = leb (1024 ^ suc index) value && ltb index last_index

-- The loop, on fuel.
unfoldable pub divide : (fuel value index : ℕ) → ℕ
divide zero value index = index
divide (suc fuel) value index =
    let later = divide fuel value (suc index) in if goes_on value index then later else index

-- `current >= 100 || index === 0 ? 0 : 1`.
unfoldable pub digits_of : (value index : ℕ) → ℕ
digits_of value index = if leb (100 * 1024 ^ index) value || index == 0 then 0 else 1

unfoldable pub format_bytes : (empty_text zero_text : String) → Option ℕ → Formatted
format_bytes empty_text zero_text none = text empty_text
format_bytes empty_text zero_text (some zero) = text zero_text
format_bytes empty_text zero_text (some (suc n)) =
    let index = divide last_index (suc n) 0 in number (suc n) index (digits_of (suc n) index)
