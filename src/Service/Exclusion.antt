-- ===== src/Service/Exclusion.antt =====
-- What a slash means for the scheduler.
use open_world_model.Base.{ℕ, ◌≡◌, Bool, false, inl, inr, ◌==◌, All, count_where}
use open_world_model.Base.Everywhere.{All-Memᴰ}
use open_world_model.Base.Text.{Text}
use open_world_model.World.{World, Node, Tier, TaskType, active, suspended, Result, ok, err}
use open_world_model.Float64.{Float64}
use open_world_model.Scheduler.{Assignment, schedule}
use open_world_model.Scheduler.Eligibility.{IsAssigned, schedule-IsAssigned}
use open_world_model.Stake.{Verifier, slash, unresolved}
use open_world_model.Stake.Slashing.{HasStatus, IsForceClosed, slash-suspends}

-- No assignment, or one to another node.
abbrev pub IsToAnother : ℕ → Result Assignment → Type 0
IsToAnother id (err e) = Unit
IsToAnother id (ok a) = (a.node_id == id) ≡ false

suspended-active :
    (id : ℕ) (n : Node) → HasStatus id suspended n → n.status ≡ active → (n.node_id == id) ≡ false
suspended-active id n (inl other) act = other
suspended-active id n (inr s) act = let e : suspended ≡ active = cc in absurd cc

assigned-IsToAnother :
    (id : ℕ) (w : World) (t : TaskType) (input : Text) (p : Result Assignment × World)
    → IsAssigned w t input p
    → All (HasStatus id suspended) w.nodes
    → IsToAnother id p.0
assigned-IsToAnother id w t input (err e, v) h all = tt
assigned-IsToAnother id w t input (ok a, v) (n, i, act, el, e, stored) all =
    rw e (suspended-active id n (All-Memᴰ (HasStatus id suspended) w.nodes i all) act)

-- A slash that returns no error leaves every row of the node suspended, its stake force-closed, and
-- no signal of it unresolved; and whatever task is scheduled then, the node is not the one that gets
-- it.
pub slash-Excludes :
    (v : Verifier) (id : ℕ) (tier : Tier) (reason evidence : Text) (n : ℕ) (w : World)
    (fp : Float64) (random : ℕ → fp.F) (has_redis : Bool) (t : TaskType) (input : Text)
    (timeout : ℕ)
    → (slash v id tier reason evidence n w).0 ≡ ok tt
    → let w' = (slash v id tier reason evidence n w).1 in
      All (HasStatus id suspended) w'.nodes
      × All (IsForceClosed id) w'.stakes
      × (count_where (unresolved id) w'.signals ≡ 0)
      × IsToAnother id (schedule fp random has_redis t input timeout w').0
slash-Excludes v id tier reason evidence n w fp random has_redis t input timeout h =
    let w' = (slash v id tier reason evidence n w).1 in
    let (nodes, stakes, signals) = slash-suspends v id tier reason evidence n w h in
    (
      nodes,
      stakes,
      signals,
      assigned-IsToAnother id w' t input (schedule fp random has_redis t input timeout w')
          (schedule-IsAssigned fp random has_redis t input timeout w') nodes,
    )
