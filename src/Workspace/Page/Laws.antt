-- ===== src/Workspace/Page/Laws.antt =====
-- The invariant of the workspace page, what its buttons may send, and a deleted profile.
use poolx.Common.{
  ℕ, Bool, true, false, List, [], ◌∷◌, Option, none, some, nat_eq, All, ◌≡◌, ◌⊎◌, inr, refl, arith,
  ◌++◌,
}
use poolx.Workspace.{PortProfileWithNodes}
use poolx.Workspace.Payload.{default_payload, to_payload, to_profile_payload, template_payload}
use poolx.Workspace.Payload.Laws.{IsValid, edit-IsValid, to_payload-IsValid}
use poolx.Workspace.Page.{
  State, initial, Effect, create_port_profile, preview_port_profile, update_port_profile,
  delete_port_profile, save_template, edited_profile, choose_profile, forget, Event, create_new,
  switch_include, apply_template, edited, click_save, click_create, click_delete, profiles_changed,
  detail_changed, deleted, step, run,
}

-- The profiles and templates of the server have no node twice, and no credentials where
-- authentication is off.
abbrev pub IsHonest : Event → Type 0
IsHonest (switch_include pending item checked) = IsValid (to_profile_payload item)
IsHonest (apply_template item) = IsValid (template_payload item)
IsHonest (detail_changed item) = IsValid (to_profile_payload item)
IsHonest _ = Unit

-- The form is valid, and while a profile is created none is selected.
pub record IsSound (s : State) : Type 0 where
  pub form : IsValid s.payload
  pub apart : s.is_creating ≡ true → s.selected_profile_id ≡ none

-- The form that an effect sends is valid.
abbrev pub Sends : Effect → Type 0
Sends (create_port_profile p) = IsValid p
Sends (preview_port_profile p) = IsValid p
Sends (update_port_profile id p) = IsValid p
Sends (save_template name p) = IsValid p
Sends _ = Unit

default-IsValid : IsValid default_payload
default-IsValid = record { distinct = tt; no_username = λ off. refl; no_password = λ off. refl }

forget-none : (id : ℕ) (current : Option ℕ) → current ≡ none → forget id current ≡ none
unfolding forget
forget-none id none h = refl
forget-none id (some c) h = ground arith

choose_profile-IsSound :
    (items : List PortProfileWithNodes) (s : State) → IsSound s → IsSound (choose_profile items s)
unfolding choose_profile
choose_profile-IsSound [] s v = v
choose_profile-IsSound (item ∷ items) s v = ground arith

pub step-IsSound : (s : State) (e : Event) → IsHonest e → IsSound s → IsSound (step s e).0
unfolding step
step-IsSound s create_new h v = record { form = default-IsValid; apart = λ on. refl }
step-IsSound s (apply_template item) h v = record { form = h; apart = λ on. refl }
step-IsSound s (edited e) h v = record { form = edit-IsValid e s.payload v.form; apart = v.apart }
step-IsSound s (profiles_changed items) h v = choose_profile-IsSound items s v
step-IsSound s (detail_changed item) h v = record { form = h; apart = v.apart }
step-IsSound s (deleted id) h v = record {
  form = default-IsValid;
  apart = λ on. forget-none id s.selected_profile_id (v.apart on);
}
step-IsSound s e h v = ground arith

pub step-Sends : (s : State) (e : Event) → IsHonest e → IsSound s → All Sends (step s e).1
unfolding step
step-Sends s (switch_include pending item checked) h v = ground arith
step-Sends s e h v = ground (arith, to_payload-IsValid s.payload v.form)

-- What the page sends in the course of a run.
unfoldable pub sent : State → List Event → List Effect
sent s [] = []
sent s (e ∷ es) = (step s e).1 ++ sent (step s e).0 es

All-append : (xs ys : List Effect) → All Sends xs → All Sends ys → All Sends (xs ++ ys)
All-append [] ys h k = k
All-append (x ∷ xs) ys (a, h) k = (a, All-append xs ys h k)

sent-Sends : (s : State) (es : List Event) → All IsHonest es → IsSound s → All Sends (sent s es)
unfolding sent
sent-Sends s [] h v = tt
sent-Sends s (e ∷ es) (k, h) v =
    All-append (step s e).1 (sent (step s e).0 es) (step-Sends s e k v)
      (sent-Sends (step s e).0 es h (step-IsSound s e k v))

-- Whatever happens to the page, each form that it sends (to create, save, preview or keep as a
-- template) lists no node twice and has no credentials where authentication is off, if the
-- profiles and templates of the server have none.
pub sent-initial-Sends : (es : List Event) → All IsHonest es → All Sends (sent initial es)
sent-initial-Sends es h =
    sent-Sends initial es h (record { form = default-IsValid; apart = λ on. refl })

run-IsSound : (s : State) (es : List Event) → All IsHonest es → IsSound s → IsSound (run s es)
unfolding run
run-IsSound s [] h v = v
run-IsSound s (e ∷ es) (k, h) v = run-IsSound (step s e).0 es h (step-IsSound s e k v)

-- Whatever happens to the page, while a profile is created no profile is selected.
pub run-initial-apart :
    (es : List Event)
    → All IsHonest es
    → (run initial es).is_creating ≡ true
    → (run initial es).selected_profile_id ≡ none
run-initial-apart es h on =
    (run-IsSound initial es h (record { form = default-IsValid; apart = λ on. refl })).apart on

-- What lets an event send a request that writes a profile.
abbrev pub Authorised : State → Event → Effect → Type 0
Authorised s e (create_port_profile p) =
    (e ≡ click_create false) × (edited_profile s ≡ none) × (p ≡ to_payload s.payload)
Authorised s e (update_port_profile id p) =
    ((e ≡ click_save false) × (edited_profile s ≡ some id) × (p ≡ to_payload s.payload))
    ⊎ ((item : PortProfileWithNodes) × (checked : Bool) × (e ≡ switch_include false item checked)
        × (id ≡ item.profile.id)
        × (p.node_ids ≡ item.node_ids))
Authorised s e (delete_port_profile id) =
    (e ≡ click_delete false true) × (edited_profile s ≡ some id)
Authorised s e _ = Unit

pub step-Authorised : (s : State) (e : Event) → All (Authorised s e) (step s e).1
unfolding step to_profile_payload
step-Authorised s (switch_include true item checked) = tt
step-Authorised s (switch_include false item checked) = (inr (item, checked, refl, refl, refl), tt)
step-Authorised s e = ground arith

-- After the profile that is first in the list and selected was deleted, the effect on the list,
-- which has not been loaded again, selects the deleted profile once more; and a detail of it that
-- is still cached is what the form shows.
pub deleted-profiles_changed :
    (s : State) (item : PortProfileWithNodes) (items : List PortProfileWithNodes)
    → s.is_creating ≡ false
    → s.selected_profile_id ≡ some item.profile.id
    → let t =
        run s
          (deleted item.profile.id ∷ profiles_changed (item ∷ items) ∷ detail_changed item ∷ []) in
      (t.selected_profile_id ≡ some item.profile.id) × (t.payload ≡ to_profile_payload item)
unfolding run step forget choose_profile
deleted-profiles_changed s item items idle selected = (ground arith, refl)
