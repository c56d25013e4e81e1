-- ===== src/Process/Phases.antt =====
-- The phases of the process, and a logic of what leads from one to another.
use open_world_model.Base.{
  ◌≡◌, refl, ◌∙◌, Bool, true, false, ◌⊎◌, inl, inr, Option, none, some, List, [], ◌∷◌, ◌++◌, arith,
  Option-cases,
}
use open_world_model.Process.{
  Action, open_pool, close_pool, open_migrations, close_migrations, apply_migrations, make_services,
  listen_grpc, listen_tor, serve_http, serve_tor, serve_grpc, start_dispatcher, start_ticker,
  cancel_background, shut_http, stop_grpc, RunError, Traced, ◌>>=◌, fail_unless, deferred,
}

-- Neither the pool nor the migrations are open; the pool is; the migrations too; they are applied; there are services; the
-- dispatcher runs; its context was cancelled.
pub data Phase : Type 0 where
  down pooled migrating migrated up working stopping : Phase

-- What may happen in a phase, and the phase after it.
abbrev pub next : Phase → Action → Option Phase
next down open_pool = some pooled
next pooled open_migrations = some migrating
next pooled close_pool = some down
next migrating apply_migrations = some migrated
next migrating close_migrations = some pooled
next migrated make_services = some up
next migrated close_migrations = some pooled
next up (listen_grpc addr) = some up
next up (listen_tor addr) = some up
next up (serve_http addr) = some up
next up serve_tor = some up
next up start_dispatcher = some working
next up close_migrations = some pooled
next working (start_ticker t) = some working
next working serve_grpc = some working
next working cancel_background = some stopping
next stopping cancel_background = some stopping
next stopping shut_http = some stopping
next stopping stop_grpc = some stopping
next stopping close_migrations = some pooled
next p a = none

unfoldable pub phase_after : Phase → List Action → Option Phase
phase_after p [] = some p
phase_after p (a ∷ t) = elim (next p a) [ none ↦ none | some q ↦ phase_after q t ]

pub phase_after-append :
    (p q : Phase) (t u : List Action)
    → phase_after p t ≡ some q
    → phase_after p (t ++ u) ≡ phase_after q u
unfolding phase_after
phase_after-append p q [] u h = let e : p ≡ q = ground arith in rw e refl
phase_after-append p q (a ∷ t) u h = elim (Option-cases (next p a)) [
  | inl e ↦ let n : ◌≡◌ {A = Option Phase} none (some q) = rw (e, phase_after) at h in absurd cc
  | inr (r, e) ↦ rw (e, phase_after) (phase_after-append r q t u (rw (e, phase_after) at h))
]

-- From a phase the actions lead to a phase, of which the statement holds with the result.
abbrev pub After : {A : Type 0} → Phase → ((RunError ⊎ A) → Phase → Type 0) → Traced A → Type 0
After p P m = (q : Phase) × (phase_after p m.0 ≡ some q) × P m.1 q

-- An error satisfies the statement, and what follows a value leads to it.
abbrev pub Then :
    {A B : Type 0}
    → ((RunError ⊎ B) → Phase → Type 0)
    → (A → Traced B)
    → (RunError ⊎ A)
    → Phase
    → Type 0
Then P f (inl e) q = P (inl e) q
Then P f (inr a) q = After q P (f a)

pub bind-After :
    {A B : Type 0} (p : Phase) (P : (RunError ⊎ B) → Phase → Type 0) (f : A → Traced B)
    (m : Traced A)
    → After p (Then P f) m
    → After p P (m >>= f)
bind-After p P f (t, inl e) (q, h, k) = (q, h, k)
bind-After p P f (t, inr a) (q, h, (r, g, k)) = (r, phase_after-append p q t (f a).0 h ∙ g, k)

-- A check, and what follows it.
pub fail_unless-After :
    {B : Type 0} (p : Phase) (b : Bool) (e : RunError) (P : (RunError ⊎ B) → Phase → Type 0)
    (m : Traced B)
    → P (inl e) p
    → After p P m
    → After p P (fail_unless b e >>= λ u. m)
unfolding phase_after
fail_unless-After p true e P m bad good = good
fail_unless-After p false e P m bad good = (p, refl, bad)

pub deferred-After :
    {A : Type 0} (p : Phase) (a : Action) (P : (RunError ⊎ A) → Phase → Type 0) (m : Traced A)
    → After p (λ r q. (q' : Phase) × (next q a ≡ some q') × P r q') m
    → After p P (deferred a m)
unfolding phase_after
deferred-After p a P (t, r) (q, h, (q', n, k)) =
    (q', phase_after-append p q t (a ∷ []) h ∙ rw (n, phase_after) refl, k)
