-- ===== src/World/Frame.antt =====
-- What holds of the state after a method, by what each action of its `do` block keeps.
use open_world_model.Base.{inl, inr, Bool-cases}
use open_world_model.World.State.{World}
use open_world_model.World.Monad.{M, Result, ok, err, bind_from, call, next}

-- The state after a run meets `Q`, whether the run ended with a value or with an error.
pub record Ends (Q : World → Type 0) {A : Type 0} (p : Result A × World) : Type 0 where
  pub holds : Q p.1

-- After a first part that ends in `P`, which is enough for `Q` where that part fails.
pub bind-Ends :
    (P Q : World → Type 0)
    → ((v : World) → P v → Q v)
    → {A B : Type 0} {f : A → M B} (p : Result A × World) → P p.1
    → ((a : A) (v : World) → P v → Ends Q (f a v))
    → Ends Q (bind_from f p)
bind-Ends P Q weaken (ok a, v) h k = k a v h
bind-Ends P Q weaken (err e, v) h k = record { holds = weaken v h }

-- A call that fails ends in the state after its tick.
pub call-ends :
    (P : World → Type 0) {A : Type 0} (m : M A) (v : World)
    → P (next v)
    → P (m (next v)).1
    → P (call m v).1
call-ends P m v h k = elim (Bool-cases (v.env.fails v.tick)) [ inl e ↦ rw e h | inr e ↦ rw e k ]
