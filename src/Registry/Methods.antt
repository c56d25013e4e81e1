-- ===== src/Registry/Methods.antt =====
-- `Register`, `Activate`, `RecordHeartbeat`, `GetByPublicKey`, `ListActive`, `UpdateStatus` and
-- `IsSuspendedOrCoolingDown`.
use open_world_model.Base.{
  ℕ, ◌+◌, Bool, true, false, not, ◌&&◌, Option, none, some, List, [], ◌∷◌, ◌++◌, ◌==◌,
  if◌then◌else◌, ltb, leb, find_where, count_where, select_where, update_first,
}
use open_world_model.Base.Int.{ℤ}
use open_world_model.Base.Text.{Text}
use open_world_model.World.{
  World, Tier, is_known_tier, NodeStatus, status_eq, Node, Task, TaskState, SlashEvent, pending,
  active, M, ok, err, no_rows, constraint, invalid_public_key, invalid_signature, timestamp_too_old,
  pure, or_raise, raise_if, modify, call, now, ◌>>=◌, ◌>>◌,
}
use open_world_model.Registry.Defs.{
  NodeCapabilities, is_too_old, canonical_register_message, public_key_bytes, has_key, has_id,
  renew, gauge_inc, gauge_dec,
}

-- The upsert of `Register`. It returns the row's id and status, and the tier and status before.
unfoldable pub upsert_node : Node → M (Node × Option Node)
upsert_node new w =
    if not (is_known_tier new.tier)
    then (err constraint, w)
    else elim (find_where (has_key new.public_key) w.nodes) [
      | some old ↦ (
        ok (record new { node_id = old.node_id; status = pending }, some old),
        record w { nodes = update_first (has_key new.public_key) (renew new) w.nodes },
      )
      | none ↦ elim (find_where (has_id new.node_id) w.nodes) [
        | some other ↦ (err constraint, w)
        | none ↦ (ok (new, none), record w { nodes = w.nodes ++ new ∷ [] })
      ]
    ]

-- A prior status is decremented before the new one is incremented.
abbrev pub gauge_prior : Option Node → World → World
gauge_prior none w = w
gauge_prior (some old) w = gauge_dec old.tier old.status w

abbrev pub new_node : ℕ → ℕ → Text → Text → Text → NodeCapabilities → Node
new_node id time key ln_uri onion caps = record {
  node_id = id;
  public_key = key;
  ln_node_uri = ln_uri;
  onion_address = onion;
  tier = caps.tier;
  hardware = caps.hardware;
  supported_task_types = caps.supported_task_types;
  reliability = 10000;
  total_tasks = 0;
  total_sats = 0;
  status = pending;
  registered_at = time;
  last_heartbeat = none;
}

unfoldable pub new_id : M ℕ
new_id w = (ok (w.env.uuid w.tick), w)

-- What follows the checks of `Register`: the upsert, and the gauge.
unfoldable pub insert_node : Node → M Node
unfolding upsert_node
insert_node new = do
  (node, prior) ← call (upsert_node new)
  modify (λ w. gauge_inc node.tier node.status (gauge_prior prior w))
  pure node

unfoldable pub verified : Text → Text → Text → M Unit
verified key_bytes msg sig w =
    (if w.env.verify key_bytes msg sig then ok tt else err invalid_signature, w)

unfoldable pub register : Text → Text → Text → NodeCapabilities → Text → ℤ → M Node
unfolding verified new_id insert_node
register key ln_uri onion caps sig ts = do
  time ← now
  raise_if (is_too_old time ts) timestamp_too_old
  key_bytes ← or_raise (public_key_bytes key) invalid_public_key
  verified key_bytes (canonical_register_message key ln_uri caps.tier ts) sig
  id ← new_id
  registered ← now
  insert_node (new_node id registered key ln_uri onion caps)

abbrev pub is_pending_node : ℕ → Node → Bool
is_pending_node id n = n.node_id == id && status_eq n.status pending

abbrev pub set_status : NodeStatus → Node → Node
set_status s n = record n { status = s }

unfoldable pub activate_found : ℕ → Option Node → M (Option Tier)
activate_found id none w = (ok none, w)
activate_found id (some n) w = (
  ok (some n.tier),
  record w { nodes = update_first (is_pending_node id) (set_status active) w.nodes },
)

unfoldable pub activate_row : ℕ → M (Option Tier)
unfolding activate_found
activate_row id w = activate_found id (find_where (is_pending_node id) w.nodes) w

-- `ErrNoRows` is no error here: the node was not pending.
abbrev gauge_activated : Option Tier → World → World
gauge_activated tier w = elim tier [
  | none ↦ w
  | some t ↦ gauge_inc t active (gauge_dec t pending w)
]

unfoldable pub activate : ℕ → M Unit
unfolding activate_row
activate id = do tier ← call (activate_row id); modify (gauge_activated tier)

abbrev is_pending_task : ℕ → Task → Bool
is_pending_task id t =
    (elim t.assigned_node [ none ↦ false | some n ↦ n == id ])
    && (elim t.status [ TaskState.task_pending ↦ true | _ ↦ false ])

beat : ℕ → ℕ → M ℕ
beat id time w = elim (find_where (has_id id) w.nodes) [
  | none ↦ (err no_rows, w)
  | some n ↦ (
    ok (count_where (is_pending_task id) w.tasks),
    record w {
      nodes = update_first (has_id id) (λ r. record r { last_heartbeat = some time }) w.nodes;
    },
  )
]

log_beat : ℕ → ℕ → M Unit
log_beat id time w = (
  ok tt,
  record w { heartbeats = w.heartbeats ++ record { node_id = id; recorded_at = time } ∷ [] },
)

unfoldable pub record_heartbeat : ℕ → M ℕ
unfolding beat log_beat
record_heartbeat id = do
  time ← now
  pending_tasks ← call (beat id time)
  call (log_beat id time)
  pure pending_tasks

select_node : (Node → Bool) → M Node
select_node p w = elim (find_where p w.nodes) [ none ↦ (err no_rows, w) | some n ↦ (ok n, w) ]

-- Of rows as `Register` writes them: a NULL among the hardware columns would not scan.
unfoldable pub get_by_public_key : Text → M Node
unfolding select_node
get_by_public_key key = call (select_node (has_key key))

-- `ORDER BY reliability DESC`; rows that tie keep the table's order.
unfoldable pub insert_by_reliability : Node → List Node → List Node
insert_by_reliability n [] = n ∷ []
insert_by_reliability n (m ∷ ms) =
    if leb m.reliability n.reliability then n ∷ m ∷ ms else m ∷ insert_by_reliability n ms

unfoldable pub sort_by_reliability : List Node → List Node
unfolding insert_by_reliability
sort_by_reliability [] = []
sort_by_reliability (n ∷ ns) = insert_by_reliability n (sort_by_reliability ns)

abbrev pub is_active : Node → Bool
is_active n = status_eq n.status active

unfoldable pub list_active : M (List Node)
unfolding sort_by_reliability
list_active = call (λ w. (ok (sort_by_reliability (select_where is_active w.nodes)), w))

-- The first query's error is dropped; a row that it did not read leaves the gauge alone.
select_label : ℕ → M (Option Node)
select_label id w =
    if w.env.fails w.tick
    then (ok none, record w { tick = w.tick + 1 })
    else (ok (find_where (has_id id) w.nodes), record w { tick = w.tick + 1 })

abbrev gauge_moved : NodeStatus → Option Node → World → World
gauge_moved s none w = w
gauge_moved s (some old) w = gauge_inc old.tier s (gauge_dec old.tier old.status w)

unfoldable pub update_status : ℕ → NodeStatus → M Unit
unfolding select_label
update_status id s = do
  old ← select_label id
  call (modify (λ w. record w { nodes = update_first (has_id id) (set_status s) w.nodes }))
  modify (gauge_moved s old)

-- The join of the nodes with the key and the events whose cooldown has not expired.
abbrev is_cooling : ℕ → ℕ → SlashEvent → Bool
is_cooling time id e = e.node_id == id && ltb time e.cooldown_expires_at

count_cooling : ℕ → List SlashEvent → Text → List Node → ℕ
count_cooling time es key [] = 0
count_cooling time es key (n ∷ ns) =
    (if has_key key n then count_where (is_cooling time n.node_id) es else 0)
    + count_cooling time es key ns

unfoldable pub is_suspended_or_cooling_down : Text → M Bool
unfolding count_cooling
is_suspended_or_cooling_down key =
    call (λ w. (ok (ltb 0 (count_cooling (w.env.clock w.tick) w.events key w.nodes)), w))
