-- ===== src/Payment/Workers/Rows.antt =====
-- What one step of a worker leaves of the rows that are paid or completed.
use open_world_model.Base.{
  ℕ, ◌≡◌, refl, ◌∙◌, Bool, true, inl, inr, some, List, [], ◌∷◌, ◌==◌, arith, find_where,
  update_first, Bool-cases,
}
use open_world_model.Base.Text.{Text}
use open_world_model.World.{World, Task, paid, completed, PaymentJob}
use open_world_model.Scheduler.{is_task}
use open_world_model.Payment.Defs.{
  Followup, is_payable, pay_row, fail_row, payment_request, settle, give_up,
}
use open_world_model.Payment.Delivery.{send-tasks}
use open_world_model.Payment.Workers.{
  Worker, Move, take, stop, leave, attempt_payment, record_payment, record_failure,
}

-- A row with the payment of another: both are paid, with one preimage, for the same reward.
abbrev pub SamePayment : Task → Task → Type 0
SamePayment t u =
    (u.payment_status ≡ paid)
    × (u.payment_preimage ≡ t.payment_preimage)
    × (u.reward_sats ≡ t.reward_sats)

-- A row with the work of another: both are completed, by one node, for the same reward.
abbrev pub SameWork : Task → Task → Type 0
SameWork t u =
    (u.status ≡ completed) × (u.reward_sats ≡ t.reward_sats) × (u.node_ln_uri ≡ t.node_ln_uri)

-- What is paid stays paid as it was, and what is completed stays completed as it was.
abbrev pub Continues : Task → Task → Type 0
Continues t u = (t.payment_status ≡ paid → SamePayment t u) × (t.status ≡ completed → SameWork t u)

pub Continues-refl : (t : Task) → Continues t t
Continues-refl t = ((λ p. (p, refl, refl)), λ d. (d, refl, refl))

-- Every row that is paid stays so.
abbrev pub KeepsPaid : List Task → List Task → Type 0
KeepsPaid ts us =
    (id : ℕ) (t : Task)
    → find_where (is_task id) ts ≡ some t
    → t.payment_status ≡ paid
    → (u : Task) × (find_where (is_task id) us ≡ some u) × SamePayment t u

-- Every task's row continues.
abbrev pub KeepsRows : List Task → List Task → Type 0
KeepsRows ts us =
    (id : ℕ) (t : Task)
    → find_where (is_task id) ts ≡ some t
    → (u : Task) × (find_where (is_task id) us ≡ some u) × Continues t u

pub KeepsRows-KeepsPaid : (ts us : List Task) → KeepsRows ts us → KeepsPaid ts us
KeepsRows-KeepsPaid ts us h id t e p = let (u, f, (k, d)) = h id t e in (u, f, k p)

pub KeepsRows-refl : (ts : List Task) → KeepsRows ts ts
KeepsRows-refl ts id t h = (t, h, Continues-refl t)

Continues-trans : (t u v : Task) → Continues t u → Continues u v → Continues t v
Continues-trans t u v (k, d) (k', d') = (
  (λ p. let (q, s, r) = k p in let (q', s', r') = k' q in (q', s' ∙ s, r' ∙ r)),
  λ h. let (q, s, r) = d h in let (q', s', r') = d' q in (q', s' ∙ s, r' ∙ r),
)

pub KeepsRows-trans : (ts us vs : List Task) → KeepsRows ts us → KeepsRows us vs → KeepsRows ts vs
KeepsRows-trans ts us vs h k id t e =
    let (u, f, c) = h id t e in let (v, g, d) = k id u f in (v, g, Continues-trans t u v c d)

pub KeepsRows-eq : {ts us : List Task} → us ≡ ts → KeepsRows ts us
KeepsRows-eq {ts} e = rw e (KeepsRows-refl ts)

-- An UPDATE of the first row that meets a condition continues what its change continues.
pub update_first-KeepsRows :
    (p : Task → Bool) (f : Task → Task)
    → ((t : Task) → (f t).task_id ≡ t.task_id)
    → ((t : Task) → p t ≡ true → Continues t (f t))
    → (ts : List Task) → KeepsRows ts (update_first p f ts)
update_first-KeepsRows p f same keep [] id t e = ground arith
update_first-KeepsRows p f same keep (x ∷ ts) id t e = elim (Bool-cases (x.task_id == id)) [
  | inl i ↦
      let tx : t ≡ x = ground arith in
      elim (Bool-cases (p x)) [
        | inl px ↦ (f x, rw px (rw (same x) (rw i refl)), rw tx (keep x px))
        | inr px ↦ (x, rw px (rw i refl), rw tx (Continues-refl x))
      ]
  | inr i ↦
      let (u, g, k) = update_first-KeepsRows p f same keep ts id t (rw i at e) in
      elim (Bool-cases (p x)) [
        | inl px ↦ (t, rw px (rw (same x) (rw i (rw i at e))), Continues-refl t)
        | inr px ↦ (u, rw px (rw i g), k)
      ]
]

unpaid-paid :
    {A : Type 0} (id : ℕ) (t : Task) → is_payable id t ≡ true → t.payment_status ≡ paid → A
unpaid-paid id t h p = ground arith

-- The UPDATE after a success, and that after the last failure.
pub pay_row-KeepsRows :
    (id : ℕ) (preimage : Text) (ts : List Task)
    → KeepsRows ts (update_first (is_payable id) (pay_row preimage) ts)
pay_row-KeepsRows id preimage =
    update_first-KeepsRows (is_payable id) (pay_row preimage) (λ t. refl)
      (λ t h. ((λ p. unpaid-paid id t h p), λ d. (d, refl, refl)))

pub fail_row-KeepsRows :
    (id : ℕ) (ts : List Task) → KeepsRows ts (update_first (is_payable id) fail_row ts)
fail_row-KeepsRows id =
    update_first-KeepsRows (is_payable id) fail_row (λ t. refl)
      (λ t h. ((λ p. unpaid-paid id t h p), λ d. (d, refl, refl)))

settle-KeepsRows :
    (b : Bool) (j : PaymentJob) (p : Text) (w : World) → KeepsRows w.tasks (settle b j p w).1.tasks
unfolding settle
settle-KeepsRows b j p w = elim (Bool-cases (w.env.fails w.tick)) [
  | inl e ↦ rw e (KeepsRows-refl w.tasks)
  | inr e ↦ rw e (pay_row-KeepsRows j.task_id p w.tasks)
]

give_up-KeepsRows : (j : PaymentJob) (w : World) → KeepsRows w.tasks (give_up j w).tasks
unfolding give_up
give_up-KeepsRows j w = elim (Bool-cases (w.env.fails w.tick)) [
  | inl e ↦ rw e (KeepsRows-refl w.tasks)
  | inr e ↦ rw e (fail_row-KeepsRows j.task_id w.tasks)
]

-- No step of a worker takes a payment or a completion back.
pub Move-KeepsRows :
    {b : Bool} {w v : World} {x y : Worker} {f : Followup}
    → Move b w x f y v
    → KeepsRows w.tasks v.tasks
Move-KeepsRows {w = w} (take j h) = KeepsRows-refl w.tasks
Move-KeepsRows {w = w} stop = KeepsRows-refl w.tasks
Move-KeepsRows {w = w} (leave j k h) = KeepsRows-refl w.tasks
Move-KeepsRows {w = w} (attempt_payment j k) = KeepsRows-eq (send-tasks (payment_request j) w)
Move-KeepsRows {b} {w} (record_payment j p) = settle-KeepsRows b j p w
Move-KeepsRows {w = w} (record_failure j) = give_up-KeepsRows j w
