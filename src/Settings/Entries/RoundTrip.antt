-- ===== src/Settings/Entries/RoundTrip.antt =====
-- The settings of the kernel, saved and loaded again.
use poolx.Common.{
  ℕ, zero, suc, ◌≤◌, ◌<◌, Bool, true, false, List, none, some, String, All, ◌≡◌, refl, sym, ap, ◌∙◌,
  arith, ltb,
}
use poolx.Common.Int.{pos, parse_int}
use poolx.Common.Number.{print, parse_int-print}
use poolx.Common.Text.{Text, trim, trim_idempotent}
use mathlib.Core.Path.{subst}
use poolx.Settings.{OptionItem}
use poolx.Settings.Fields.{SystemFields}
use poolx.Settings.Options.{get_entry, options_to_map, load_system, to_boolean, boolean_text}
use poolx.Settings.Entries.{Entries, check_clash, check_timeout, clash_entries, clash_error, passed}
use poolx.Settings.Entries.Laws.{check_timeout-passed}

-- The server's answer holds an entry that was saved.
abbrev pub Stores : List OptionItem → String × Text → Type 0
Stores items entry = get_entry entry.0 (options_to_map (some items)) ≡ some entry.1

abbrev pub reloaded : List OptionItem → Text → SystemFields
reloaded items address = load_system (λ key. get_entry key (options_to_map (some items))) address

to_boolean-boolean_text : (b fallback : Bool) → to_boolean (some (boolean_text b)) fallback ≡ b
unfolding to_boolean
to_boolean-boolean_text true fallback = refl
to_boolean-boolean_text false fallback = refl

-- The fields of a form that was saved with the timeout `n`.
record IsReloaded (n : ℕ) (s t : SystemFields) : Type 0 where
  kernel_type : t.kernel_type ≡ s.kernel_type
  kernel_auto_start : t.kernel_auto_start ≡ s.kernel_auto_start
  clash_allow_lan : t.clash_allow_lan ≡ s.clash_allow_lan
  controller : t.clash_external_controller ≡ trim s.clash_external_controller
  mode : t.clash_mode ≡ trim s.clash_mode
  secret : t.clash_secret ≡ trim s.clash_secret
  url : t.node_test_default_url ≡ trim s.node_test_default_url
  timeout : t.node_test_default_timeout_ms ≡ print n

reloaded-IsReloaded :
    (s : SystemFields) (n : ℕ) (items : List OptionItem) (address : Text)
    → All (Stores items) (clash_entries s n)
    → IsReloaded n s (reloaded items address)
unfolding clash_entries load_system
reloaded-IsReloaded s n items address (k, (a, (l, (c, (m, (e, (u, (t, done)))))))) = record {
  kernel_type = rw k refl;
  kernel_auto_start = rw a (to_boolean-boolean_text s.kernel_auto_start false);
  clash_allow_lan = rw l (to_boolean-boolean_text s.clash_allow_lan false);
  controller = rw c refl;
  mode = rw m refl;
  secret = rw e refl;
  url = rw u refl;
  timeout = rw t refl;
}

clash_error-reloaded :
    (s t : SystemFields) (n : ℕ) → IsReloaded n s t → clash_error t ≡ clash_error s
unfolding clash_error
clash_error-reloaded s t n h =
    rw
      (
        h.controller,
        h.mode,
        h.secret,
        h.url,
        trim_idempotent s.clash_external_controller,
        trim_idempotent s.clash_mode,
        trim_idempotent s.clash_secret,
        trim_idempotent s.node_test_default_url,
      )
      refl

clash_entries-reloaded :
    (s t : SystemFields) (n : ℕ) → IsReloaded n s t → clash_entries t n ≡ clash_entries s n
unfolding clash_entries
clash_entries-reloaded s t n h =
    rw
      (
        h.kernel_type,
        h.kernel_auto_start,
        h.clash_allow_lan,
        h.controller,
        h.mode,
        h.secret,
        h.url,
        trim_idempotent s.clash_external_controller,
        trim_idempotent s.clash_mode,
        trim_idempotent s.clash_secret,
        trim_idempotent s.node_test_default_url,
      )
      refl

check_timeout-in_range :
    (t : SystemFields) (n : ℕ)
    → 0 < n
    → n ≤ 60000
    → clash_error t ≡ none
    → check_timeout t (some (pos n)) ≡ passed (clash_entries t n)
unfolding check_timeout
check_timeout-in_range t zero positive most e = absurd (omega arith)
check_timeout-in_range t (suc n) positive most e =
    let small : ltb 60000 (suc n) ≡ false = ground arith in rw (small, e) refl

-- Saving the settings of the kernel and loading them again loses nothing: when the check of the
-- form passes and the options that the server answers hold each entry that was sent, the form
-- loaded from them passes the check as well and would send the same entries, in the same order.
pub check_clash-reloaded :
    (s : SystemFields) (sent : Entries) (items : List OptionItem) (address : Text)
    → check_clash s ≡ passed sent
    → All (Stores items) sent
    → check_clash (reloaded items address) ≡ passed sent
unfolding check_clash
check_clash-reloaded s sent items address h stored =
    let (n, read, positive, most, e, eq) =
      check_timeout-passed s (parse_int s.node_test_default_timeout_ms) sent h in
    let same = reloaded-IsReloaded s n items address (subst (All (Stores items)) eq stored) in
    let t = reloaded items address in
    let value : parse_int t.node_test_default_timeout_ms ≡ some (pos n) =
      ap parse_int same.timeout ∙ parse_int-print n in
    ap (check_timeout t) value
    ∙ check_timeout-in_range t n positive most (clash_error-reloaded s t n same ∙ e)
    ∙ ap passed (clash_entries-reloaded s t n same ∙ sym eq)
