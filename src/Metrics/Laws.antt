-- ===== src/Metrics/Laws.antt =====
-- The loop of `formatBytes` ends at the largest unit that fits.
use poolx.Common.{
  ℕ, zero, suc, ◌+◌, ◌^◌, ◌≤◌, ◌<◌, Bool, true, false, ◌&&◌, some, String, ◌≡◌, refl, arith, ◌⊎◌,
  inl, inr, leb, ltb, Bool-cases, ltb→lt, leb→le,
}
use poolx.Metrics.{number, last_index, goes_on, divide, digits_of, format_bytes}

-- Where the loop is: the index is at most the last one, and the value reaches its unit.
abbrev pub Fits : (value index : ℕ) → Type 0
Fits value index = (index ≤ last_index) × ((index ≡ 0) ⊎ (1024 ^ index ≤ value))

both_true : (a b : Bool) → (a && b) ≡ true → (a ≡ true) × (b ≡ true)
both_true a b h = (ground arith, ground arith)

goes_on-Fits : (value index : ℕ) → goes_on value index ≡ true → Fits value (suc index)
unfolding goes_on
goes_on-Fits value index h =
    let (large, before) = both_true (leb (1024 ^ suc index) value) (ltb index last_index) h in
    (omega (arith, ltb→lt index last_index before), inr (leb→le (1024 ^ suc index) value large))

divide-Fits : (fuel value index : ℕ) → Fits value index → Fits value (divide fuel value index)
unfolding divide
divide-Fits zero value index h = h
divide-Fits (suc fuel) value index h = elim (Bool-cases (goes_on value index)) [
  | inl e ↦ rw e (divide-Fits fuel value (suc index) (goes_on-Fits value index e))
  | inr e ↦ rw e h
]

and_false : (a : Bool) → (a && false) ≡ false
and_false true = refl
and_false false = refl

goes_on-last : (value index : ℕ) → last_index ≤ index → goes_on value index ≡ false
unfolding goes_on
goes_on-last value index h =
    let late : ltb index last_index ≡ false = ground arith in
    rw late (and_false (leb (1024 ^ suc index) value))

divide-stops :
    (fuel value index : ℕ)
    → last_index ≤ fuel + index
    → goes_on value (divide fuel value index) ≡ false
unfolding divide
divide-stops zero value index h = goes_on-last value index (omega arith)
divide-stops (suc fuel) value index h = elim (Bool-cases (goes_on value index)) [
  | inl e ↦ rw e (divide-stops fuel value (suc index) (omega arith))
  | inr e ↦ rw e e
]

stays : (fuel value index : ℕ) → goes_on value index ≡ false → divide fuel value index ≡ index
unfolding divide
stays zero value index h = refl
stays (suc fuel) value index h = rw h refl

divide-enough :
    (fuel extra value index : ℕ)
    → last_index ≤ fuel + index
    → divide (fuel + extra) value index ≡ divide fuel value index
unfolding divide
divide-enough zero extra value index h =
    stays (0 + extra) value index (goes_on-last value index (omega arith))
divide-enough (suc fuel) extra value index h =
    let more : suc fuel + extra ≡ suc (fuel + extra) = omega arith in
    rw (more, divide-enough fuel extra value (suc index) (omega arith)) refl

leb-below : (a b : ℕ) → leb a b ≡ false → b < a
leb-below a b h = ground arith

first_false : (a b : Bool) → (a && b) ≡ false → b ≡ true → a ≡ false
first_false a b h e = ground arith

-- The value is below the next unit where the loop stops before the last one.
stopped :
    (value index : ℕ)
    → goes_on value index ≡ false
    → (index < last_index)
    → value < 1024 ^ suc index
unfolding goes_on
stopped value index h before =
    let early : ltb index last_index ≡ true = ground arith in
    leb-below (1024 ^ suc index) value
      (first_false (leb (1024 ^ suc index) value) (ltb index last_index) h early)

divide-unit :
    (extra value : ℕ)
    → (divide (last_index + extra) value 0 ≡ divide last_index value 0)
      × (divide last_index value 0 ≤ last_index)
      × ((divide last_index value 0 ≡ 0) ⊎ (1024 ^ divide last_index value 0 ≤ value))
      × ((divide last_index value 0 < last_index) → value < 1024 ^ suc (divide last_index value 0))
divide-unit extra value =
    let fits = divide-Fits last_index value 0 (omega arith, inl refl) in
    (
      divide-enough last_index extra value 0 (omega arith),
      fits.0,
      fits.1,
      stopped value (divide last_index value 0) (divide-stops last_index value 0 (omega arith)),
    )

-- `formatBytes` chooses the right unit: for a number of bytes above 0 it shows the number divided by
-- 1024 as often as the index of the unit says; the index is one of the five, the number reaches the
-- unit unless it is the byte, and is below the next one unless it is the last; and the loop has
-- ended by then, since more rounds give the same index.
pub format_bytes-unit :
    (empty_text zero_text : String) (value : ℕ)
    → 0 < value
    → (index : ℕ) × (digits : ℕ) × (format_bytes empty_text zero_text (some value)
        ≡ number value index digits)
      × (index ≤ last_index)
      × ((index ≡ 0) ⊎ (1024 ^ index ≤ value))
      × (index < last_index → value < 1024 ^ suc index)
      × ((extra : ℕ) → divide (last_index + extra) value 0 ≡ index)
unfolding format_bytes
format_bytes-unit empty_text zero_text zero h = absurd (omega arith)
format_bytes-unit empty_text zero_text (suc n) h =
    let (same, last, reached, below) = divide-unit 0 (suc n) in
    (
      divide last_index (suc n) 0,
      digits_of (suc n) (divide last_index (suc n) 0),
      refl,
      last,
      reached,
      below,
      λ extra. (divide-unit extra (suc n)).0,
    )
