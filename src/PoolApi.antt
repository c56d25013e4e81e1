-- ===== src/PoolApi.antt =====
-- internal/http/pool_api.go: the status of a node for the mining pool.
use open_world_model.Base.{ℕ, Bool, true, Option, none, some, find_where}
use open_world_model.Base.Text.{Text}
use open_world_model.World.{
  World, Node, Tier, NodeStatus, M, Result, ok, err, no_rows, pure, attempt, call, ◌>>=◌,
}
use open_world_model.Registry.{has_key}

-- The three answers, each with its HTTP status code.
pub data PoolResponse : Type 0 where
  ok_200 : ℕ → Tier → NodeStatus → Bool → PoolResponse
  not_found_404 : PoolResponse
  internal_error_500 : PoolResponse

abbrev node_response : Result Node → PoolResponse
node_response (ok n) = ok_200 n.node_id n.tier n.status true
node_response (err e) = elim e [ no_rows ↦ not_found_404 | _ ↦ internal_error_500 ]

-- The row of the query; `public_key` is unique.
abbrev scan : Option Node → World → Result Node × World
scan none w = (err no_rows, w)
scan (some n) w = (ok n, w)

unfoldable pub handle_get_node_status : Text → M PoolResponse
handle_get_node_status key = do
  row ← attempt (call (λ w. scan (find_where (has_key key) w.nodes) w))
  pure (node_response row)
