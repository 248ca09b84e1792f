-- ===== src/Auth/Forms/Register/Laws.antt =====
-- What the registration sends.
use poolx.Common.{
  ◌≤◌, Bool, true, false, not, ◌&&◌, ◌||◌, [], ◌∷◌, Option, none, some, ◌≡◌, refl, sym, arith, All,
  is_empty, length, Bool-cases, Option-cases, inl, inr, list_eq, list_beq_iff, nat_eq,
}
use poolx.Common.Text.{Text}
use poolx.Ui.{success}
use poolx.Auth.Forms.{message}
use poolx.Auth.Forms.Register.{
  Effect, Event, RegisterFormValues, State, base_schema, click_code, code_clicked, code_failed,
  code_sent, entered, register_failed, register_user, registered, schema, send_code,
  set_email_error, step, submit, submitted, to_payload, token_set, verified,
}

-- The values behind a registration that may be sent.
abbrev pub Registrable :
    (Text → Bool) → (needs_email needs_turnstile : Bool) → State → Effect → Type 0
Registrable is_email needs_email needs_turnstile s (register_user payload token) =
    (values : RegisterFormValues) × (payload ≡ to_payload values)
    × (1 ≤ length payload.username)
    × (length payload.username ≤ 12)
    × (8 ≤ length payload.password)
    × (length payload.password ≤ 20)
    × (values.password2 ≡ payload.password)
    × (needs_email ≡ true → verified is_email values ≡ true)
    × (needs_turnstile ≡ true → token ≡ some s.turnstile_token)
Registrable is_email needs_email needs_turnstile s _ = Unit

base_schema-bounds :
    (values : RegisterFormValues)
    → base_schema values ≡ true
    → (1 ≤ length values.username)
      × (length values.username ≤ 12)
      × (8 ≤ length values.password)
      × (length values.password ≤ 20)
      × (values.password2 ≡ values.password)
unfolding base_schema
base_schema-bounds values h =
    let same : values.password ≡ values.password2 = (list_beq_iff _ _).0 (ground arith) in
    (ground arith, ground arith, ground arith, ground arith, sym same)

module _ (is_email : Text → Bool) (needs_email needs_turnstile : Bool) where
  schema-verified :
      (values : RegisterFormValues)
      → schema is_email needs_email values ≡ true
      → (base_schema values ≡ true) × (needs_email ≡ true → verified is_email values ≡ true)
  unfolding schema
  schema-verified values h = (ground arith, λ needed. ground arith)

  submit-Registrable :
      (s : State) (values : RegisterFormValues)
      → schema is_email needs_email values ≡ true
      → All (Registrable is_email needs_email needs_turnstile s) (submit needs_turnstile values s).1
  unfolding submit to_payload
  submit-Registrable s values valid =
      let (base, mail) = schema-verified values valid in
      let (least, most, short, long, same) = base_schema-bounds values base in
      elim (Bool-cases (needs_turnstile && is_empty s.turnstile_token)) [
        | inl e ↦ rw e tt
        | inr e ↦ rw e (
          (values, refl, least, most, short, long, same, mail, λ needed. ground (arith, needed, e)),
          tt,
        )
      ]

  send_code-Registrable :
      (s : State) (email : Option Text) (t : State)
      → All (Registrable is_email needs_email needs_turnstile s) (send_code email t).1
  unfolding send_code
  send_code-Registrable s none t = (tt, tt)
  send_code-Registrable s (some email) t = elim (Bool-cases (is_empty email)) [
    | inl e ↦ rw e (tt, tt)
    | inr e ↦ rw e (tt, tt)
  ]

  click_code-Registrable :
      (s t : State)
      → All (Registrable is_email needs_email needs_turnstile s) (click_code needs_turnstile t).1
  unfolding click_code
  click_code-Registrable s t = elim (Bool-cases (needs_turnstile && is_empty t.turnstile_token)) [
    | inl e ↦ rw e tt
    | inr e ↦ rw e (send_code-Registrable s t.form.email (record t { message = none }))
  ]

  pub step-Registrable :
      (resolver : RegisterFormValues → Option RegisterFormValues)
      → ((v w : RegisterFormValues) → resolver v ≡ some w → schema is_email needs_email w ≡ true)
      → (s : State) (e : Event)
      → All
          (Registrable is_email needs_email needs_turnstile s)
          (step resolver needs_email needs_turnstile s e).1
  unfolding step
  step-Registrable resolver passes s (entered values) = tt
  step-Registrable resolver passes s (token_set token) = tt
  step-Registrable resolver passes s (submitted true) = tt
  step-Registrable resolver passes s (submitted false) = elim (Option-cases (resolver s.form)) [
    | inl e ↦ rw e tt
    | inr (w, e) ↦ rw e (submit-Registrable s w (passes s.form w e))
  ]
  step-Registrable resolver passes s (code_clicked pending) =
      elim (Bool-cases (pending || not needs_email)) [
        | inl e ↦ rw e tt
        | inr e ↦ rw e (click_code-Registrable s s)
      ]
  step-Registrable resolver passes s registered = (tt, tt)
  step-Registrable resolver passes s code_sent = tt
  step-Registrable resolver passes s (register_failed error) = tt
  step-Registrable resolver passes s (code_failed error) = tt

  -- A code that was never sent is reported as sent: where the address is empty, the button for the
  -- code sends no request, and only marks the field, yet the page says that the code was sent.
  pub click_code-blank :
      (s : State)
      → (s.form.email ≡ some [])
      → (needs_turnstile && is_empty s.turnstile_token) ≡ false
      → ((click_code needs_turnstile s).1 ≡ set_email_error "请输入邮箱地址" ∷ [])
        × ((click_code needs_turnstile s).0.message ≡ message success "验证码发送成功，请检查邮箱。")
  unfolding click_code send_code
  click_code-blank s blank tested = rw (blank, tested) (refl, refl)
