-- ===== src/Rpc/Results.antt =====
-- Whose task results change the tasks and the payment queue.
use open_world_model.Base.{
  ℕ, ◌-◌, ◌≡◌, refl, sym, ◌∙◌, Bool, true, false, ◌⊎◌, inl, inr, Option, none, some, arith,
  Bool-cases, Option-cases, find_where, if◌then◌else◌, ltb,
}
use open_world_model.Base.Int.{pos}
use open_world_model.Base.Text.{Text, is_empty, encode_hex}
use open_world_model.World.{World, Env, Node, Result, ok, err, call, next, M, bind_from}
use open_world_model.Float64.{Float64}
use open_world_model.Registry.{
  public_key_bytes, has_id, update_reliability, found_time, registration_time, count_tasks,
  count_beats, compute_reliability, store_reliability,
}
use open_world_model.Rpc.Checks.{canonical_task_result_message, verify_task_result_sig, check_key}
use open_world_model.Rpc.Handlers.{
  TaskResult, found_key, select_key, require_signature, submit_task_result,
}

none_some : {A B : Type 0} {a : A} → none ≡ some a → B
none_some h = ground arith

-- What the guard of a result may change: neither the tasks nor the payment queue.
abbrev pub IsUnpaid : World → World → Type 0
IsUnpaid w w' = (w'.tasks ≡ w.tasks) × (w'.queue ≡ w.queue)

-- The result carries a signature of the node that it names, by the key of that node's row.
abbrev pub IsSigned : World → TaskResult → Type 0
IsSigned w r =
    (node : ℕ) × (n : Node) × (key : Text) × (w.env.parse_uuid r.node_id ≡ some node)
    × (find_where (has_id node) w.nodes ≡ some n)
    × (public_key_bytes n.public_key ≡ some key)
    × (w.env.verify key (canonical_task_result_message r.task_id (encode_hex r.output_hash))
          r.signature
        ≡ true)

record IsKept {A : Type 0} (w : World) (p : Result A × World) : Type 0 where
  unpaid : IsUnpaid w p.1

bind-IsKept :
    {A B : Type 0} {f : A → M B} (w : World) (p : Result A × World)
    → IsUnpaid w p.1
    → ((a : A) (v : World) → IsUnpaid w v → IsKept w (f a v))
    → IsKept w (bind_from f p)
bind-IsKept w (ok a, v) h k = k a v h
bind-IsKept w (err e, v) h k = record { unpaid = h }

call-IsUnpaid :
    {A : Type 0} (m : M A) (w v : World)
    → IsUnpaid w v
    → IsUnpaid v (m (next v)).1
    → IsUnpaid w (call m v).1
call-IsUnpaid m w v h (t, q) = elim (Bool-cases (v.env.fails v.tick)) [
  | inl e ↦ rw e h
  | inr e ↦ rw e (t ∙ h.0, q ∙ h.1)
]

read-IsUnpaid :
    (fp : Float64) (id : ℕ) (w : World) → IsUnpaid w (registration_time fp id (next w)).1
unfolding found_time
read-IsUnpaid fp id w = elim (Option-cases (find_where (has_id id) w.nodes)) [
  | inl e ↦ rw e (refl, refl)
  | inr (n, e) ↦ rw e (refl, refl)
]

update_reliability-IsKept :
    (fp : Float64) (id : ℕ) (b : Bool) (w : World) → IsKept w (update_reliability fp id b w)
unfolding update_reliability
update_reliability-IsKept fp id b w =
    bind-IsKept w (call (registration_time fp id) w)
      (call-IsUnpaid (registration_time fp id) w w (refl, refl) (read-IsUnpaid fp id w))
      (λ registered v1 h1.
        let time = v1.env.clock v1.tick in
        let start =
          if ltb (time - 604800000000000) registered then registered else time - 604800000000000 in
        bind-IsKept w (call (count_tasks fp id start) (next v1))
          (call-IsUnpaid (count_tasks fp id start) w (next v1) h1 (refl, refl))
          (λ (total, completed) v2 h2.
            bind-IsKept w (call (count_beats fp id start) v2)
              (call-IsUnpaid (count_beats fp id start) w v2 h2 (refl, refl))
              (λ received v3 h3.
                let r =
                  compute_reliability fp (pos completed) (pos total) (pos received)
                    (v3.env.clock v3.tick - start) in
                record {
                  unpaid =
                      call-IsUnpaid
                        (store_reliability fp id (fp.to_numeric 4 r) (if b then 1 else 0)) w
                        (next v3) h3 (refl, refl);
                })))

verify_task_result_sig-true :
    (env : Env) (pub_key task_id output_hash sig : Text)
    → verify_task_result_sig env pub_key task_id output_hash sig ≡ none
    → (key : Text) × (public_key_bytes pub_key ≡ some key)
      × (env.verify key (canonical_task_result_message task_id (encode_hex output_hash)) sig ≡ true)
unfolding verify_task_result_sig check_key
verify_task_result_sig-true env pub_key task_id output_hash sig h =
    elim (Bool-cases (is_empty sig)) [
      | inl e ↦ none_some (sym (rw e at h))
      | inr e ↦ by_key (public_key_bytes pub_key) refl (rw e at h)
    ]
  where
    by_key :
        (o : Option Text)
        → public_key_bytes pub_key ≡ o
        → check_key env o (canonical_task_result_message task_id (encode_hex output_hash)) sig
          ≡ none
        → (key : Text) × (public_key_bytes pub_key ≡ some key)
          × (env.verify key (canonical_task_result_message task_id (encode_hex output_hash)) sig
              ≡ true)
    by_key none e h = none_some (sym h)
    by_key (some key) e h =
        elim (Bool-cases
          (env.verify key (canonical_task_result_message task_id (encode_hex output_hash)) sig)) [
            | inl v ↦ (key, e, v)
            | inr v ↦ none_some (sym (rw v at h))
          ]

-- A result whose signature is not that of the node that it names changes neither the tasks nor the
-- payment queue, whether or not calls of the database fail on the way.
pub submit_task_result-IsSigned :
    (fp : Float64) (has_dispatcher : Bool) (r : TaskResult) (w : World)
    → IsSigned w r ⊎ IsUnpaid w (submit_task_result fp has_dispatcher r w).1
unfolding submit_task_result select_key require_signature
submit_task_result-IsSigned fp has_dispatcher r w =
    elim (Option-cases (w.env.parse_uuid r.task_id)) [
      | inl e ↦ inr (rw e (refl, refl))
      | inr (task, e) ↦ elim (Option-cases (w.env.parse_uuid r.node_id)) [
        | inl e' ↦ inr (rw e (rw e' (refl, refl)))
        | inr (node, e') ↦ elim (Bool-cases (is_empty r.signature)) [
          | inl s ↦ inr (rw e (rw e' (rw s (refl, refl))))
          | inr s ↦ elim (Bool-cases (w.env.fails w.tick)) [
            | inl f ↦ inr (rw e (rw e' (rw s (rw f (refl, refl)))))
            | inr f ↦ elim (Option-cases (find_where (has_id node) w.nodes)) [
              | inl n ↦ inr (rw e (rw e' (rw s (rw f (rw (n, found_key) (refl, refl))))))
              | inr (n, fn) ↦
                  elim (Option-cases (
                    verify_task_result_sig w.env n.public_key r.task_id r.output_hash
                      r.signature)) [
                        | inl v ↦
                            let (key, k, sg) =
                              verify_task_result_sig-true w.env n.public_key r.task_id r.output_hash
                                r.signature v in
                            inl (node, n, key, e', fn, k, sg)
                        | inr (x, v) ↦ inr (
                            rw e (
                              rw e' (
                                rw s (
                                  rw f (
                                    rw (fn, found_key)
                                      (rw v
                                        (update_reliability-IsKept fp node false
                                          (next w)).unpaid))))))
                      ]
            ]
          ]
        ]
      ]
    ]
