-- ===== src/Rpc/Stream.antt =====
-- `StreamTasks`: what a node receives of the messages on its channel.
use open_world_model.Base.{
  ℕ, zero, suc, Bool, true, false, Option, none, some, List, [], ◌∷◌, if◌then◌else◌,
}
use open_world_model.Base.Int.{ℤ, int32_of}
use open_world_model.Base.Text.{Text}

-- streamTaskPayload
pub record StreamTaskPayload : Type 0 where
  pub task_id : Text
  pub node_id : Text
  pub task_type : Text
  pub reward_sats : ℤ
  pub timeout_secs : ℤ

-- coordinatorv1.Task, with the fields that the handler sets
pub record TaskMessage : Type 0 where
  pub task_id : Text
  pub task_type : Text
  pub timeout_seconds : ℤ
  pub reward_sats : ℤ

unfoldable pub task_message : StreamTaskPayload → TaskMessage
unfolding int32_of
task_message p = record {
  task_id = p.task_id;
  task_type = p.task_type;
  timeout_seconds = int32_of p.timeout_secs;
  reward_sats = p.reward_sats;
}

-- What the loop's `select` takes next: a message, the end of the channel, or of the stream's context.
pub data Event : Type 0 where
  message : Text → Event
  channel_closed : Event
  context_done : Event

-- How the handler stands: it waits for the next event, it returned nil, or an error of `Send`.
pub data StreamEnd : Type 0 where
  waiting returned send_failed bad_node_id : StreamEnd

-- One round of the loop. `sends` is the answer of `stream.Send`, by the messages sent before.
module _ (unmarshal : Text → Option StreamTaskPayload) (sends : ℕ → Bool) where
  unfoldable pub stream_loop : ℕ → List Event → List TaskMessage × StreamEnd
  unfolding task_message
  stream_loop k [] = ([], waiting)
  stream_loop k (context_done ∷ es) = ([], returned)
  stream_loop k (channel_closed ∷ es) = ([], returned)
  stream_loop k (message s ∷ es) = elim (unmarshal s) [
    | none ↦ stream_loop k es
    | some p ↦
        let rest = stream_loop (suc k) es in
        if sends k then (task_message p ∷ rest.0, rest.1) else ([], send_failed)
  ]

  -- With no Redis client the handler waits for the end of its context.
  unfoldable pub wait_done : List Event → StreamEnd
  wait_done [] = waiting
  wait_done (context_done ∷ es) = returned
  wait_done (channel_closed ∷ es) = wait_done es
  wait_done (message s ∷ es) = wait_done es

  -- `id` is the node's id parsed.
  unfoldable pub stream_tasks : Bool → Option ℕ → List Event → List TaskMessage × StreamEnd
  unfolding stream_loop wait_done
  stream_tasks has_redis none es = ([], bad_node_id)
  stream_tasks false (some id) es = ([], wait_done es)
  stream_tasks true (some id) es = stream_loop zero es
