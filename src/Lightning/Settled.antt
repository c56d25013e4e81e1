-- ===== src/Lightning/Settled.antt =====
-- What the clients answer to a payment.
use open_world_model.Base.{
  ◌≡◌, refl, Bool, true, false, ◌⊎◌, inl, inr, Option, none, some, List, [], ◌∷◌, arith, find_where,
  Bool-cases,
}
use open_world_model.Base.Text.{Text, codes, text_eq, is_empty, encode_hex}
use open_world_model.World.{SendPaymentRequest, PaymentResult}
use open_world_model.Payment.{outcome_of, succeeded}
use open_world_model.Lightning.Cln.{
  Json, Server, ClnClient, Pay, PayResult, pay_fields, pay_answer, read_error, read_pay,
  read_payment, cln_send_payment,
}
use open_world_model.Lightning.Lnd.{
  Update, LndStatus, RouterRequest, router_request, payment_loop, lnd_send_payment,
}

-- An update that ends a payment.
abbrev pub is_final : Update → Bool
is_final u = elim u.status [ LndStatus.succeeded ↦ true | LndStatus.failed ↦ true | _ ↦ false ]

-- The result that an update stands for.
abbrev pub Settles : Update → PaymentResult → Type 0
Settles u r =
    ((u.status ≡ LndStatus.succeeded)
      × (r.status ≡ codes "SUCCEEDED")
      × (r.preimage ≡ encode_hex u.payment_preimage))
    ⊎ ((u.status ≡ LndStatus.failed) × (r.status ≡ codes "FAILED"))

abbrev pub IsSettled : List Update → Option PaymentResult → Type 0
IsSettled us none = find_where is_final us ≡ none
IsSettled us (some r) = (u : Update) × (find_where is_final us ≡ some u) × Settles u r

step-IsSettled :
    (s : LndStatus) (p f : Text) (us : List Update)
    → IsSettled us (payment_loop us)
    → let u : Update = record { status = s; payment_preimage = p; failure_reason = f } in
      IsSettled (u ∷ us) (payment_loop (u ∷ us))
unfolding payment_loop
step-IsSettled LndStatus.succeeded p f us h = (_, refl, inl (refl, refl, refl))
step-IsSettled LndStatus.failed p f us h = (_, refl, inr (refl, refl))
step-IsSettled LndStatus.unknown p f us h = h
step-IsSettled LndStatus.in_flight p f us h = h
step-IsSettled LndStatus.initiated p f us h = h

payment_loop-IsSettled : (us : List Update) → IsSettled us (payment_loop us)
unfolding payment_loop
payment_loop-IsSettled [] = refl
payment_loop-IsSettled (u ∷ us) =
    step-IsSettled u.status u.payment_preimage u.failure_reason us (payment_loop-IsSettled us)

-- LND's client answers a payment with the first final update of the router's stream, a success or a
-- failure and never a payment in flight, and with an error where the stream ends before; the
-- preimage of a success is the hexadecimal form of the characters of the update's preimage.
pub lnd_send_payment-IsSettled :
    (router : RouterRequest → Option (List Update)) (req : SendPaymentRequest) (us : List Update)
    → router (router_request req) ≡ some us
    → IsSettled us (lnd_send_payment router req)
unfolding lnd_send_payment
lnd_send_payment-IsSettled router req us h = rw h (payment_loop-IsSettled us)

pay_answer-preimage :
    (json : Json) (r : PayResult)
    → text_eq (pay_answer json r).status (codes "SUCCEEDED") ≡ true
    → is_empty (pay_answer json r).preimage ≡ false
unfolding pay_answer
pay_answer-preimage json r h = elim (Bool-cases (is_empty r.payment_preimage)) [
  | inl e ↦ rw e (rw h refl)
  | inr e ↦ rw e e
]

abbrev HasPreimage : Option PaymentResult → Type 0
HasPreimage none = Unit
HasPreimage (some r) = text_eq r.status (codes "SUCCEEDED") ≡ true → is_empty r.preimage ≡ false

read_error-HasPreimage :
    (json : Json) (body : Text) (r : PayResult) (o : Option Text)
    → HasPreimage (some (read_error json body r o))
unfolding read_error text_eq
read_error-HasPreimage json body r none h = pay_answer-preimage json (pay_fields json body r) h
read_error-HasPreimage json body r (some m) h = ground arith

read_payment-HasPreimage : (json : Json) (o : Option Text) → HasPreimage (read_payment json o)
unfolding read_payment
read_payment-HasPreimage json none = tt
read_payment-HasPreimage json (some body) = by_pay (json.pay body)
  where
    by_pay : (p : Option Pay) → HasPreimage (read_pay json body p)
    by_pay none = tt
    by_pay (some p) = read_error-HasPreimage json body p.result p.error

outcome_of-HasPreimage :
    (o : Option PaymentResult) (preimage : Text)
    → HasPreimage o
    → outcome_of o ≡ succeeded preimage
    → is_empty preimage ≡ false
unfolding outcome_of
outcome_of-HasPreimage none preimage h e = ground arith
outcome_of-HasPreimage (some r) preimage h e =
    elim (Bool-cases (text_eq r.status (codes "SUCCEEDED"))) [
      | inl s ↦ let same : r.preimage ≡ preimage = ground arith in rw (← same) (h s)
      | inr s ↦ ground arith
    ]

-- With CLN's client, a payment that the dispatcher takes for a success has a preimage to record that
-- is not empty, whatever CLN answers.
pub cln_send_payment-preimage :
    (json : Json) (server : Server) (c : ClnClient) (req : SendPaymentRequest) (preimage : Text)
    → outcome_of (cln_send_payment json server c req) ≡ succeeded preimage
    → is_empty preimage ≡ false
unfolding cln_send_payment
cln_send_payment-preimage json server c req preimage =
    outcome_of-HasPreimage _ preimage (read_payment-HasPreimage json _)
