-- ===== src/Requests/Pages.antt =====
-- The requests behind the effects of two pages: the `mutationFn`s and the list query of
-- server/web/features/nodes/components/nodes-page.tsx, and the mutations of
-- server/web/features/users/components/users-page.tsx.
pub mod Laws
use poolx.Common.{ℕ, Option, none, some}
use poolx.Common.Text.{Text}
use poolx.Nodes.Page as NodesPage
use poolx.Nodes.Page.{list_params}
use poolx.Users.{UserMutationPayload}
use poolx.Users.Page as UsersPage
use poolx.Requests.{Json, text, number, object, JsonFields, end, field}
use poolx.Requests.Calls.{
  NodeCall, UserCall, get_proxy_nodes, delete_proxy_node, delete_proxy_nodes, test_proxy_nodes,
  test_all_proxy_nodes, update_proxy_node_tags, create_user, update_user, manage_user,
}

-- The fields of a payload that was made by `toPayload`.
abbrev pub payload_fields : UserMutationPayload → JsonFields
payload_fields payload = field "username" (text payload.username) (
    field "display_name" (text payload.display_name) (field "password" (text payload.password) end))

module _ {File : Type 0} where
  -- The request of the list.
  unfoldable pub list_call : NodesPage.State → NodeCall File
  list_call s = get_proxy_nodes (list_params s)

  -- None for an effect that is no request.
  unfoldable pub node_call : NodesPage.Effect → Option (NodeCall File)
  node_call (NodesPage.delete_node id) = some (delete_proxy_node id)
  node_call (NodesPage.delete_nodes ids) = some (delete_proxy_nodes ids)
  node_call (NodesPage.test_nodes ids) = some (test_proxy_nodes ids)
  node_call (NodesPage.test_all keyword enabled) =
      some (test_all_proxy_nodes (some keyword) (some enabled))
  node_call (NodesPage.update_tags ids tags) = some (update_proxy_node_tags ids tags)
  node_call _ = none

  unfoldable pub user_call : UsersPage.Effect → Option (UserCall File)
  user_call (UsersPage.create_user payload) = some (create_user (object (payload_fields payload)))
  user_call (UsersPage.update_user id payload) =
      some (update_user (object (field "id" (number id) (payload_fields payload))))
  user_call (UsersPage.manage_user username action) = some (manage_user username action)
  user_call _ = none
