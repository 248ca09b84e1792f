-- ===== src/Update/Laws.antt =====
-- What starts an upgrade.
use poolx.Common.{
  Bool, true, false, not, ◌&&◌, [], ◌∷◌, Option, none, some, ◌≡◌, refl, arith, All, is_empty,
  if◌then◌else◌, Bool-cases, Option-cases, inl, inr,
}
use poolx.Update.{
  Effect, Event, LatestReleaseInfo, UploadedServerBinaryInfo, View, can_confirm_manual_upgrade,
  channel_clicked, check_clicked, confirm_clicked, confirm_enabled, confirm_manual_upgrade,
  file_selected, opened, step, upgrade, upgrade_clicked, upgrade_enabled, upload_binary,
  upload_clicked,
}

-- Nothing that would restart the server is under way.
abbrev pub IsIdle : View → Type 0
IsIdle v =
    (v.is_upgrading ≡ false)
    × (v.is_uploading_binary ≡ false)
    × (v.is_confirming_manual_upgrade ≡ false)

module _ {File : Type 0} where
  abbrev pub IsCallable : View → Option File → Effect File → Type 0
  IsCallable v file upgrade =
      IsIdle v
      × (v.can_upgrade ≡ true)
      × (release : LatestReleaseInfo) × (v.release ≡ some release)
      × (release.has_update ≡ true)
      × (release.upgrade_supported ≡ true)
      × (release.in_progress ≡ false)
  IsCallable v file confirm_manual_upgrade =
      IsIdle v
      × (v.can_upgrade ≡ true)
      × (binary : UploadedServerBinaryInfo) × (v.uploaded_binary ≡ some binary)
      × (binary.ready_to_upgrade ≡ true)
      × (is_empty binary.upload_token ≡ false)
  IsCallable v file (upload_binary chosen) =
      (file ≡ some chosen)
      × (v.can_upgrade ≡ true)
      × (v.is_uploading_binary ≡ false)
      × (can_confirm_manual_upgrade v ≡ false)
  IsCallable v file _ = Unit

  upgrade-IsCallable :
      (v : View) (file : Option File) → upgrade_enabled v ≡ true → IsCallable v file upgrade
  unfolding upgrade_enabled
  upgrade-IsCallable v file h = elim (Option-cases v.release) [
    | inl e ↦ absurd (ground (arith, e, h))
    | inr (release, e) ↦
        let idle : IsIdle v = (ground (arith, e, h), ground (arith, e, h), ground (arith, e, h)) in
        (
          idle,
          ground (arith, e, h),
          release,
          e,
          ground (arith, e, h),
          ground (arith, e, h),
          ground (arith, e, h),
        )
  ]

  confirm-IsCallable :
      (v : View) (file : Option File)
      → confirm_enabled v ≡ true
      → IsCallable v file confirm_manual_upgrade
  unfolding confirm_enabled can_confirm_manual_upgrade
  confirm-IsCallable v file h = elim (Option-cases v.uploaded_binary) [
    | inl e ↦ absurd (ground (arith, e, h))
    | inr (binary, e) ↦ (
      (ground (arith, e, h), ground (arith, e, h), ground (arith, e, h)),
      ground (arith, e, h),
      binary,
      e,
      ground (arith, e, h),
      ground (arith, e, h),
    )
  ]

  step_if :
      (v : View) (file : Option File) (test : Bool) (effect : Effect File)
      → (test ≡ true → IsCallable v file effect)
      → All (IsCallable v file) (if test then effect ∷ [] else [])
  step_if v file true effect h = (h refl, tt)
  step_if v file false effect h = tt

  -- An upgrade starts only where it may: the dialog calls for the upgrade only with a release that is
  -- newer, can be installed and is not being installed, for a user who may upgrade, and for the
  -- manual one only with an upload that is ready and has its token; in both cases no upgrade, upload
  -- or confirmation is under way. It uploads only the file selected, while no other upload runs, and
  -- not where a checked upload waits to be confirmed.
  pub step-IsCallable :
      (v : View) (file : Option File) (e : Event File) → All (IsCallable v file) (step v file e).1
  unfolding step
  step-IsCallable v file channel_clicked = step_if v file _ _ (λ h. tt)
  step-IsCallable v file check_clicked = step_if v file _ _ (λ h. tt)
  step-IsCallable v file upgrade_clicked = step_if v file _ _ (upgrade-IsCallable v file)
  step-IsCallable v file confirm_clicked = step_if v file _ _ (confirm-IsCallable v file)
  step-IsCallable v none upload_clicked = tt
  step-IsCallable v (some chosen) upload_clicked =
      step_if v (some chosen) _ _
        (λ h. (refl, ground (arith, h), ground (arith, h), ground (arith, h)))
  step-IsCallable v file (file_selected chosen) =
      elim (Bool-cases
        (v.can_upgrade && (not v.is_uploading_binary && not v.is_confirming_manual_upgrade))) [
          | inl e ↦ rw e tt
          | inr e ↦ rw e tt
        ]
  step-IsCallable v file (opened is_open) = tt
