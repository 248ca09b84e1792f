-- ===== src/Tests/Workspace.antt =====
-- The workspace page at concrete forms and events.
use poolx.Common.{true, false, List, [], ◌∷◌, some, none, refl, nat_eq, All}
use poolx.Common.Int.{pos}
use poolx.Common.Text.{units}
use poolx.Workspace.{PortProfileWithNodes}
use poolx.Workspace.Payload.{
  to_profile_payload, normalize_proxy_settings, switch_auth, set_password, toggle_node,
}
use poolx.Workspace.Payload.Laws.{IsValid}
use poolx.Workspace.Page.{
  State, initial, Event, create_new, edited, click_create, click_delete, detail_changed,
  profiles_changed, step,
}
use poolx.Workspace.Page.Laws.{
  IsHonest, Sends, sent, sent-initial-Sends, Authorised, step-Authorised,
}

abbrev home : PortProfileWithNodes
home = record {
  profile = record {
    id = 4;
    name = units "home";
    listen_host = units "127.0.0.1";
    mixed_port = pos 7890;
    socks_port = pos 0;
    http_port = pos 0;
    proxy_settings = none;
    include_in_runtime = true;
    kernel_type = "mihomo";
    created_at = "";
    updated_at = "";
  };
  node_ids = 3 ∷ 5 ∷ [];
  nodes = [];
  runtime = none;
}

abbrev events : List Event
events =
    profiles_changed (home ∷ [])
    ∷ detail_changed home
    ∷ create_new
    ∷ edited (switch_auth true)
    ∷ edited (set_password (units " pw "))
    ∷ edited (switch_auth false)
    ∷ edited (toggle_node 9 true)
    ∷ click_create false
    ∷ []

home-IsValid : IsValid (to_profile_payload home)
unfolding to_profile_payload normalize_proxy_settings
home-IsValid = record {
  distinct = (refl, (refl, tt));
  no_username = λ off. refl;
  no_password = λ off. refl;
}

events-IsHonest : All IsHonest events
events-IsHonest = (tt, (home-IsValid, (tt, (tt, (tt, (tt, (tt, (tt, tt))))))))

abbrev editing : State
editing = record initial { selected_profile_id = some 4 }

sent-initial-Sends_example : All Sends (sent initial events)
sent-initial-Sends_example = sent-initial-Sends events events-IsHonest

step-Authorised_example :
    All (Authorised editing (click_delete false true)) (step editing (click_delete false true)).1
step-Authorised_example = step-Authorised editing (click_delete false true)
