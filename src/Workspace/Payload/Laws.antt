-- ===== src/Workspace/Payload/Laws.antt =====
-- The form of a port profile: what is sent of it, its ports, and its credentials.
use poolx.Common.{true, false, [], ◌≡◌, ◌≢◌, refl, arith, nat_eq, zero, suc}
use poolx.Common.Int.{ℤ, pos, negsuc, or_zero}
use poolx.Common.Text.{trim, trim_start, trim_end, trim_idempotent}
use poolx.Common.Unique.{Distinct, toggle-Distinct}
use poolx.Workspace.{PortProfilePayload}
use poolx.Workspace.Payload.{to_payload, Edit, edit, switch_mixed, toggle_node}

-- What is sent of the form is trimmed: sending it again would send the same.
pub to_payload_idempotent : (p : PortProfilePayload) → to_payload (to_payload p) ≡ to_payload p
unfolding to_payload
to_payload_idempotent p = simp trim_idempotent

or_zero-ne : (n other : ℤ) → other ≢ pos 0 → or_zero n other ≢ pos 0
or_zero-ne (pos zero) other h = h
or_zero-ne (pos (suc n)) other h = λ e. ground arith
or_zero-ne (negsuc n) other h = λ e. ground arith

or_zero-keeps : (n other : ℤ) → n ≢ pos 0 → or_zero n other ≡ n
or_zero-keeps (pos zero) other h = ground arith
or_zero-keeps (pos (suc n)) other h = refl
or_zero-keeps (negsuc n) other h = refl

trim-empty : trim [] ≡ []
unfolding trim trim_start trim_end
trim-empty = refl

-- The switch of the mixed port: on, it leaves the mixed port and no other; off, it leaves the
-- two others and not the mixed port; and what was entered for a port that stays is kept.
pub edit-switch_mixed :
    (p : PortProfilePayload)
    → let a = edit (switch_mixed true) p in
      let b = edit (switch_mixed false) p in
      (a.mixed_port ≢ pos 0)
      × (a.socks_port ≡ pos 0)
      × (a.http_port ≡ pos 0)
      × (b.mixed_port ≡ pos 0)
      × (b.socks_port ≢ pos 0)
      × (b.http_port ≢ pos 0)
      × (p.mixed_port ≢ pos 0 → a.mixed_port ≡ p.mixed_port)
      × (p.socks_port ≢ pos 0 → b.socks_port ≡ p.socks_port)
      × (p.http_port ≢ pos 0 → b.http_port ≡ p.http_port)
unfolding edit
edit-switch_mixed p = (
  or_zero-ne p.mixed_port (pos 7890) (λ e. ground arith),
  refl,
  refl,
  refl,
  or_zero-ne p.socks_port (pos 7891) (λ e. ground arith),
  or_zero-ne p.http_port (pos 7892) (λ e. ground arith),
  or_zero-keeps p.mixed_port (pos 7890),
  or_zero-keeps p.socks_port (pos 7891),
  or_zero-keeps p.http_port (pos 7892),
)

-- A form without authentication has no credentials, and no node twice.
pub record IsValid (p : PortProfilePayload) : Type 0 where
  pub distinct : Distinct p.node_ids
  pub no_username : p.proxy_settings.auth_enabled ≡ false → p.proxy_settings.auth_username ≡ []
  pub no_password : p.proxy_settings.auth_enabled ≡ false → p.proxy_settings.auth_password ≡ []

pub edit-IsValid : (e : Edit) (p : PortProfilePayload) → IsValid p → IsValid (edit e p)
unfolding edit
edit-IsValid (toggle_node id checked) p v = ground (arith, toggle-Distinct p.node_ids id checked)
edit-IsValid e p v = ground arith

pub to_payload-IsValid : (p : PortProfilePayload) → IsValid p → IsValid (to_payload p)
unfolding to_payload
to_payload-IsValid p v = record {
  distinct = v.distinct;
  no_username = λ off. rw (v.no_username off) trim-empty;
  no_password = λ off. rw (v.no_password off) trim-empty;
}
