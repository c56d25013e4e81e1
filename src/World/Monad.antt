-- ===== src/World/Monad.antt =====
-- A method of a service: state with an error result. The state comes back after an error too, since
-- each statement commits by itself.
use open_world_model.Base.{ℕ, suc, ◌≡◌, refl, Bool, Option, none, some, ◌∷◌, if◌then◌else◌}
use open_world_model.World.State.{World, Metric}

-- One constructor for each error that the code returns; wrapping adds text only.
pub data Error : Type 0 where
  call_failed no_rows constraint : Error
  timestamp_too_old timestamp_in_future : Error
  invalid_public_key invalid_signature signature_required : Error
  invalid_argument permission_denied internal not_found : Error
  unknown_tier no_slash_client : Error
  no_eligible_nodes : Error
  round_not_open too_few_accepted : Error
  invalid_key_format : Error
  decode_failed encode_failed : Error

pub data Result {ℓ} (A : Type ℓ) : Type ℓ where
  ok : A → Result A
  err : Error → Result A

abbrev pub M : Type 0 → Type 0
M A = World → Result A × World

module _ {A : Type 0} where
  abbrev pub pure : A → M A
  pure a w = (ok a, w)

  abbrev pub raise : Error → M A
  raise e w = (err e, w)

  abbrev pub gets : (World → A) → M A
  gets f w = (ok (f w), w)

  abbrev pub or_raise : Option A → Error → M A
  or_raise o e w = (elim o [ none ↦ err e | some a ↦ ok a ], w)

  -- `err` is looked at, or dropped, by the caller.
  abbrev pub attempt : M A → M (Result A)
  attempt m w = let (r, w') = m w in (ok r, w')

abbrev pub bind_from : {A B : Type 0} → (A → M B) → Result A × World → Result B × World
bind_from f (ok a, w) = f a w
bind_from f (err e, w) = (err e, w)

infixl 5 ◌>>=◌ ◌>>◌
abbrev pub ◌>>=◌ : {A B : Type 0} → M A → (A → M B) → M B
◌>>=◌ m f w = bind_from f (m w)

abbrev pub ◌>>◌ : {A B : Type 0} → M A → M B → M B
m >> k = m >>= λ _. k

abbrev pub raise_if : Bool → Error → M (Unit {0})
raise_if c e w = (if c then err e else ok tt, w)

abbrev pub modify : (World → World) → M (Unit {0})
modify f w = (ok tt, f w)

abbrev pub next : World → World
next w = record w { tick = suc w.tick }

-- One call of an outside service: it fails and does nothing, or it runs.
abbrev pub call : {A : Type 0} → M A → M A
call m w = if w.env.fails w.tick then (err call_failed, next w) else m (next w)

abbrev pub now : M ℕ
now w = (ok (w.env.clock w.tick), next w)

abbrev pub count_metric : Metric → M (Unit {0})
count_metric c w = (ok tt, record w { metrics = c ∷ w.metrics })

-- An `if` between two actions.
abbrev pub branch : {A : Type 0} → Bool → M A → M A → M A
branch b m k w = if b then m w else k w

-- A statement about the state after `m >>= f`: that of `f` where `m` succeeds, of `m` where not.
module _ {A B : Type 0} (Q : World → Type 0) (f : A → M B) where
  after_result :
      (p : Result A × World) → ((a : A) → p.0 ≡ ok a → Q (f a p.1).1) → Q p.1 → Q (bind_from f p).1
  after_result (ok a, w) good bad = good a refl
  after_result (err e, w) good bad = bad

  pub after-bind :
      (m : M A) (w : World)
      → ((a : A) → (m w).0 ≡ ok a → Q (f a (m w).1).1)
      → Q (m w).1
      → Q ((m >>= f) w).1
  after-bind m w = after_result (m w)

-- A statement about the outcome of a bind: it holds of every error, and of what comes after a value.
pub bind-holds :
    {A B : Type 0} (Q : Result B × World → Type 0) {f : A → M B} (p : Result A × World)
    → ((a : A) (w : World) → p ≡ (ok a, w) → Q (f a w))
    → ((e : Error) (w : World) → p ≡ (err e, w) → Q (err e, w))
    → Q (bind_from f p)
bind-holds Q (ok a, w) good bad = good a w refl
bind-holds Q (err e, w) good bad = bad e w refl
