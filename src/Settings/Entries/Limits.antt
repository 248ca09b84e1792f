-- ===== src/Settings/Entries/Limits.antt =====
-- The rate limits that the settings page saves, read back by the keys that the page loads.
use poolx.Common.{
  ℕ, ◌≤◌, ◌<◌, true, List, [], ◌∷◌, some, none, String, ◌≡◌, refl, sym, arith, Option-cases, inl,
  inr,
}
use poolx.Common.Int.{pos, parse_int}
use poolx.Common.Number.{print, parse_int-print}
use poolx.Common.Text.{Text, starts_with}
use poolx.Settings.Fields.{OperationFields}
use poolx.Settings.Options.{get_entry, load_operation}
use poolx.Settings.Entries.{
  Entries, passed, limit_entries, is_duration, first_limit_error, print_parsed, printed_entries,
  check_entries, check_limits,
}
use poolx.Settings.Entries.Laws.{IsLimit, first_limit_error-none, keys}

-- A field that was entered as a number above 0 and loaded as its print, which is read back.
abbrev pub IsCount : (entered loaded : Text) → Type 0
IsCount entered loaded =
    (n : ℕ) × (parse_int entered ≡ some (pos n))
    × (loaded ≡ print n)
    × (parse_int loaded ≡ some (pos n))
    × (0 < n)

-- The same for a time, which is at most 1200 seconds.
abbrev pub IsTime : (entered loaded : Text) → Type 0
IsTime entered loaded =
    (n : ℕ) × (parse_int entered ≡ some (pos n))
    × (loaded ≡ print n)
    × (parse_int loaded ≡ some (pos n))
    × (0 < n)
    × (n ≤ 1200)

-- The limits of a form that was saved, and of the form that is loaded.
pub record AreLimits (o t : OperationFields) : Type 0 where
  pub global_api_num : IsCount o.global_api_num t.global_api_num
  pub global_api_duration : IsTime o.global_api_duration t.global_api_duration
  pub global_web_num : IsCount o.global_web_num t.global_web_num
  pub global_web_duration : IsTime o.global_web_duration t.global_web_duration
  pub upload_num : IsCount o.upload_num t.upload_num
  pub upload_duration : IsTime o.upload_duration t.upload_duration
  pub download_num : IsCount o.download_num t.download_num
  pub download_duration : IsTime o.download_duration t.download_duration
  pub critical_num : IsCount o.critical_num t.critical_num
  pub critical_duration : IsTime o.critical_duration t.critical_duration

-- The ten keys, in the order of the form.
abbrev pub limit_keys : List String
limit_keys =
    "GlobalApiRateLimitNum" ∷ "GlobalApiRateLimitDuration" ∷ "GlobalWebRateLimitNum"
    ∷ "GlobalWebRateLimitDuration" ∷ "UploadRateLimitNum" ∷ "UploadRateLimitDuration"
    ∷ "DownloadRateLimitNum" ∷ "DownloadRateLimitDuration" ∷ "CriticalRateLimitNum"
    ∷ "CriticalRateLimitDuration" ∷ []

abbrev loaded_from : Entries → Text → OperationFields
loaded_from sent address = load_operation (λ key. get_entry key sent) address

IsLimit→IsCount :
    (key : String) (value : Text)
    → IsLimit (key, value)
    → IsCount value (print_parsed (parse_int value))
unfolding print_parsed
IsLimit→IsCount key value (n, read, positive, short) =
    rw read (n, refl, refl, parse_int-print n, positive)

IsLimit→IsTime :
    (key : String) (value : Text)
    → is_duration key ≡ true
    → IsLimit (key, value)
    → IsTime value (print_parsed (parse_int value))
unfolding print_parsed
IsLimit→IsTime key value d (n, read, positive, short) =
    rw read (n, refl, refl, parse_int-print n, positive, short d)

loaded-AreLimits :
    (o : OperationFields) (address : Text)
    → first_limit_error (limit_entries o) ≡ none
    → AreLimits o (loaded_from (printed_entries (limit_entries o)) address)
unfolding limit_entries printed_entries load_operation get_entry is_duration starts_with
loaded-AreLimits o address e =
    let (an, (ad, (wn, (wd, (un, (ud, (dn, (dd, (cn, (cd, done)))))))))) =
      first_limit_error-none (limit_entries o) e in
    record {
      global_api_num = IsLimit→IsCount "GlobalApiRateLimitNum" o.global_api_num an;
      global_api_duration =
          IsLimit→IsTime "GlobalApiRateLimitDuration" o.global_api_duration refl ad;
      global_web_num = IsLimit→IsCount "GlobalWebRateLimitNum" o.global_web_num wn;
      global_web_duration =
          IsLimit→IsTime "GlobalWebRateLimitDuration" o.global_web_duration refl wd;
      upload_num = IsLimit→IsCount "UploadRateLimitNum" o.upload_num un;
      upload_duration = IsLimit→IsTime "UploadRateLimitDuration" o.upload_duration refl ud;
      download_num = IsLimit→IsCount "DownloadRateLimitNum" o.download_num dn;
      download_duration = IsLimit→IsTime "DownloadRateLimitDuration" o.download_duration refl dd;
      critical_num = IsLimit→IsCount "CriticalRateLimitNum" o.critical_num cn;
      critical_duration = IsLimit→IsTime "CriticalRateLimitDuration" o.critical_duration refl cd;
    }

printed-keys : (o : OperationFields) → keys (printed_entries (limit_entries o)) ≡ limit_keys
unfolding printed_entries limit_entries
printed-keys o = refl

-- When the check of the rate limits passes, the entries to save have the ten keys of the limits in
-- the order of the form, and the form that is loaded from them has in each of its ten limits the
-- decimal print of the number that was entered in the same field of the saved form: a number above
-- 0, which is read back from that print, and in the five times at most 1200.
pub check_limits-AreLimits :
    (o : OperationFields) (sent : Entries) (address : Text)
    → check_limits o ≡ passed sent
    → (keys sent ≡ limit_keys) × AreLimits o (load_operation (λ key. get_entry key sent) address)
unfolding check_limits check_entries
check_limits-AreLimits o sent address h =
    elim (Option-cases (first_limit_error (limit_entries o))) [
      | inl e ↦
          let eq : printed_entries (limit_entries o) ≡ sent = ground (arith, e, h) in
          rw (sym eq) (printed-keys o, loaded-AreLimits o address e)
      | inr (message, e) ↦ absurd (ground (arith, e, h))
    ]
