-- ===== src/Auth/Provider.antt =====
-- components/providers/auth-provider.tsx: the session that the whole console reads. The requests
-- that are under way are counted; their answers come in any order.
pub mod Laws
use poolx.Common.{
  ℕ, zero, suc, ◌+◌, ◌-◌, Bool, true, false, List, [], ◌∷◌, Option, none, some, is_some,
  if◌then◌else◌, ◌==◌, nat_eq,
}
use poolx.Auth.{AuthUser}

pub record State : Type 0 where
  pub user : Option AuthUser
  pub is_loading : Bool
  pub refreshing : ℕ
  pub leaving : ℕ

-- The state after the first effect, which calls `refreshUser`.
abbrev pub initial : State
initial = record { user = none; is_loading = true; refreshing = 1; leaving = 0 }

-- A call of `refreshUser` or of `logout`, and its end: of `getCurrentUser` the user or, where it
-- throws, none; of the request to leave whether it succeeded. `user_set` is a call of `setUser`.
pub data Event : Type 0 where
  refresh_called logout_called : Event
  refresh_settled : Option AuthUser → Event
  logout_settled : (succeeded : Bool) → Event
  user_set : Option AuthUser → Event

-- `setUserState` and `setIsLoading(false)`.
unfoldable pub settled : Option AuthUser → State → State
settled user s = record s { user = user; is_loading = false }

unfoldable pub step : Event → State → State
step refresh_called s = record s { refreshing = suc s.refreshing }
step logout_called s = record s { leaving = suc s.leaving }
step (refresh_settled user) s =
    if s.refreshing == 0 then s else settled user (record s { refreshing = s.refreshing - 1 })
step (logout_settled succeeded) s =
    if s.leaving == 0 then s else settled none (record s { leaving = s.leaving - 1 })
step (user_set user) s = settled user s

unfoldable pub run : List Event → State → State
run [] s = s
run (e ∷ es) s = run es (step e s)

-- `isAuthenticated`.
unfoldable pub is_authenticated : State → Bool
is_authenticated s = is_some s.user
