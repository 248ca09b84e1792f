-- ===== src/Settings/Entries/Laws.antt =====
-- The bounds on what the settings page saves.
use poolx.Common.{
  ℕ, zero, suc, ◌≤◌, ◌<◌, true, false, List, [], ◌∷◌, Option, none, some, String, map, is_empty,
  All, ◌≡◌, refl, arith, Bool-cases, Option-cases, inl, inr, ltb,
}
use poolx.Common.Int.{ℤ, pos, negsuc, parse_int}
use poolx.Common.Number.{print, parse_int-print}
use poolx.Common.Text.{Text, trim}
use poolx.Settings.Fields.{SystemFields}
use poolx.Settings.Options.{get_entry}
use poolx.Settings.Entries.{
  Entries, passed, check_timeout, clash_error, clash_entries, check_clash, is_duration, limit_error,
  first_limit_error, is_host_port, is_mode,
}

-- A rate limit that may be saved: its value is read as a number above 0, and a time is at most
-- 1200 seconds.
abbrev pub IsLimit : String × Text → Type 0
IsLimit entry =
    (n : ℕ) × (parse_int entry.1 ≡ some (pos n)) × (0 < n) × (is_duration entry.0 ≡ true → n ≤ 1200)

limit_error-none :
    (key : String) (value : Option ℤ)
    → limit_error key value ≡ none
    → (n : ℕ) × (value ≡ some (pos n)) × (0 < n) × (is_duration key ≡ true → n ≤ 1200)
unfolding limit_error
limit_error-none key none h = cc
limit_error-none key (some (negsuc n)) h = cc
limit_error-none key (some (pos zero)) h = cc
limit_error-none key (some (pos (suc n))) h = (suc n, refl, omega arith, λ d. ground arith)

pub first_limit_error-none :
    (entries : Entries) → first_limit_error entries ≡ none → All IsLimit entries
unfolding first_limit_error
first_limit_error-none [] h = tt
first_limit_error-none ((key, value) ∷ entries) h =
    elim (Option-cases (limit_error key (parse_int value))) [
      | inl e ↦ (
        limit_error-none key (parse_int value) e,
        first_limit_error-none entries (ground (arith, e)),
      )
      | inr (message, e) ↦ absurd (ground (arith, e))
    ]

abbrev pub keys : Entries → List String
keys entries = map (λ e. e.0) entries

clash_error-none :
    (s : SystemFields)
    → clash_error s ≡ none
    → (is_empty (trim s.node_test_default_url) ≡ false)
      × (is_host_port (trim s.clash_external_controller) ≡ true)
      × (is_empty (trim s.clash_secret) ≡ false)
      × (is_mode (trim s.clash_mode) ≡ true)
unfolding clash_error
clash_error-none s h = ground arith

pub check_timeout-passed :
    (s : SystemFields) (value : Option ℤ) (sent : Entries)
    → check_timeout s value ≡ passed sent
    → (n : ℕ) × (value ≡ some (pos n))
      × (0 < n)
      × (n ≤ 60000)
      × (clash_error s ≡ none)
      × (sent ≡ clash_entries s n)
unfolding check_timeout
check_timeout-passed s none sent h = absurd (ground (arith, h))
check_timeout-passed s (some (negsuc n)) sent h = absurd (ground (arith, h))
check_timeout-passed s (some (pos zero)) sent h = absurd (ground (arith, h))
check_timeout-passed s (some (pos (suc n))) sent h = elim (Bool-cases (ltb 60000 (suc n))) [
  | inl e ↦ absurd (ground (arith, e, h))
  | inr e ↦
      let f : clash_error s ≡ none = ground (arith, e, h) in
      (suc n, refl, omega arith, ground arith, f, ground (arith, e, f, h))
]

-- The settings of the kernel that pass the check: the URL of the latency test and the secret are
-- not blank, the address of the controller has the form host:port, the mode is one of the three,
-- and the timeout that is sent is the print of a number from 1 to 60000, the one that was entered,
-- which is read back from it.
pub check_clash-bounds :
    (s : SystemFields) (sent : Entries)
    → check_clash s ≡ passed sent
    → (is_empty (trim s.node_test_default_url) ≡ false)
      × (is_host_port (trim s.clash_external_controller) ≡ true)
      × (is_empty (trim s.clash_secret) ≡ false)
      × (is_mode (trim s.clash_mode) ≡ true)
      × (n : ℕ) × (parse_int s.node_test_default_timeout_ms ≡ some (pos n))
      × (0 < n)
      × (n ≤ 60000)
      × (get_entry "ClashExternalController" sent ≡ some (trim s.clash_external_controller))
      × (get_entry "ClashMode" sent ≡ some (trim s.clash_mode))
      × (get_entry "NodeTestDefaultTimeoutMS" sent ≡ some (print n))
      × (parse_int (print n) ≡ some (pos n))
unfolding check_clash get_entry clash_entries
check_clash-bounds s sent h =
    let (n, read, positive, most, e, eq) =
      check_timeout-passed s (parse_int s.node_test_default_timeout_ms) sent h in
    let (url, controller, secret, mode) = clash_error-none s e in
    rw eq
      (url, controller, secret, mode, n, read, positive, most, refl, refl, refl, parse_int-print n)
