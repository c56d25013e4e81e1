-- ===== src/Rpc/Delivered.antt =====
-- What the stream of a node delivers.
use open_world_model.Base.{
  ℕ, suc, ◌≡◌, refl, ap, Bool, ◌⊎◌, inl, inr, Option, none, some, List, [], ◌∷◌, ◌++◌, Bool-cases,
  Option-cases,
}
use open_world_model.Base.Text.{Text}
use open_world_model.Rpc.Stream.{
  StreamTaskPayload, TaskMessage, task_message, Event, message, channel_closed, context_done,
  StreamEnd, send_failed, stream_loop,
}

module _ (unmarshal : Text → Option StreamTaskPayload) where
  abbrev keep_task : Option StreamTaskPayload → List TaskMessage → List TaskMessage
  keep_task none ts = ts
  keep_task (some p) ts = task_message p ∷ ts

  -- The tasks of the messages that can be read, up to the end of the stream.
  abbrev pub readable : List Event → List TaskMessage
  readable [] = []
  readable (context_done ∷ es) = []
  readable (channel_closed ∷ es) = []
  readable (message s ∷ es) = keep_task (unmarshal s) (readable es)

  -- The tasks that were sent are the first of them, and all unless a send failed.
  abbrev pub IsDelivered : List Event → List TaskMessage × StreamEnd → Type 0
  IsDelivered es (sent, end) =
      (rest : List TaskMessage) × (readable es ≡ sent ++ rest) × ((rest ≡ []) ⊎ (end ≡ send_failed))

  -- The node receives the tasks of the messages on its channel in their order, none twice and none
  -- out of turn; a message that cannot be read is passed over, and a task is left out only after a
  -- send failed.
  pub stream_loop-IsDelivered :
      (sends : ℕ → Bool) (k : ℕ) (es : List Event)
      → IsDelivered es (stream_loop unmarshal sends k es)
  unfolding stream_loop
  stream_loop-IsDelivered sends k [] = ([], refl, inl refl)
  stream_loop-IsDelivered sends k (context_done ∷ es) = ([], refl, inl refl)
  stream_loop-IsDelivered sends k (channel_closed ∷ es) = ([], refl, inl refl)
  stream_loop-IsDelivered sends k (message s ∷ es) = elim (Option-cases (unmarshal s)) [
    | inl e ↦ rw (e, stream_loop) (stream_loop-IsDelivered sends k es)
    | inr (p, e) ↦ elim (Bool-cases (sends k)) [
      | inl good ↦
          let (rest, h, end) = stream_loop-IsDelivered sends (suc k) es in
          rw (e, stream_loop) (rw good (rest, ap (λ ts. task_message p ∷ ts) h, end))
      | inr bad ↦ rw (e, stream_loop) (rw bad (task_message p ∷ readable es, refl, inr refl))
    ]
  ]
