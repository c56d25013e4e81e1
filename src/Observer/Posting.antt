-- ===== src/Observer/Posting.antt =====
-- What a client posts to the registry.
use open_world_model.Base.{
  ◌≡◌, refl, true, false, ◌++◌, ◌⊎◌, inl, inr, some, [], ◌∷◌, arith, Bool-cases, Option-cases,
}
use open_world_model.Base.Text.{Text, codes, is_empty, trim_space}
use open_world_model.Observer.Crypto.{Crypto, Laws, IsKeyOfSeed}
use open_world_model.Observer.Receipt.{Receipt, fields_for_hash, verify_signature}
use open_world_model.Observer.Keys.{client_key}
use open_world_model.Observer.Client.{
  Client, Post, Registry, failed, sender_not_set, request_error, trim_slashes, new_client,
  set_sender_pubkey_hash, signed_receipt, submit,
}
use open_world_model.Observer.Signing.{client_key-sign_receipt}

module _ (c : Crypto) (l : Laws c) where
  -- The receipt with the sender filled in.
  abbrev pub from_sender : Text → Receipt → Receipt
  from_sender hash r = record r { sender_public_key_hash = hash }

  -- One post of the signed receipt of a sender; or none, where there is no request to the client's URL.
  abbrev pub IsPost : Text → Registry → Client → Receipt → Text → Type 0
  IsPost hash reg cl r url =
      ((reg.makes_request url ≡ false) × (submit c reg cl r ≡ ([], failed request_error)))
      ⊎ ((reg.makes_request url ≡ true)
          × ((p : Post) × ((submit c reg cl r).0 ≡ p ∷ [])
              × (p.url ≡ url)
              × (fields_for_hash c p.receipt ≡ fields_for_hash c (from_sender hash r))
              × (verify_signature c p.receipt (c.public_of cl.signing_key) ≡ true)))

  pub new_client-key :
      (endpoint raw : Text) (cl : Client)
      → new_client c endpoint raw ≡ some cl
      → client_key c raw ≡ some cl.signing_key
  unfolding new_client
  new_client-key endpoint raw cl h = elim (Option-cases (client_key c raw)) [
    | inl e ↦ ground arith
    | inr (k, e) ↦ ground arith
  ]

  new_client-endpoint :
      (endpoint raw : Text) (cl : Client)
      → new_client c endpoint raw ≡ some cl
      → cl.api_endpoint ≡ trim_slashes endpoint
  unfolding new_client
  new_client-endpoint endpoint raw cl h = elim (Option-cases (client_key c raw)) [
    | inl e ↦ ground arith
    | inr (k, e) ↦ ground arith
  ]

  pub submit-IsPost :
      (reg : Registry) (endpoint raw hash : Text) (r : Receipt) (cl : Client)
      → new_client c endpoint raw ≡ some cl
      → IsKeyOfSeed c cl.signing_key
      → ((is_empty (trim_space hash) ≡ true)
          × (submit c reg (set_sender_pubkey_hash c hash cl) r ≡ ([], failed sender_not_set)))
        ⊎ IsPost
            (trim_space hash)
            reg
            (set_sender_pubkey_hash c hash cl)
            r
            (trim_slashes endpoint ++ codes "/v1/receipts")
  unfolding submit set_sender_pubkey_hash signed_receipt
  submit-IsPost reg endpoint raw hash r cl h pair = elim (Bool-cases (is_empty (trim_space hash))) [
    | inl e ↦ inl (e, rw e refl)
    | inr e ↦
        let (s, signs, same, good) =
          client_key-sign_receipt c l raw cl.signing_key (from_sender (trim_space hash) r)
            (new_client-key endpoint raw cl h) pair in
        let at : cl.api_endpoint ≡ trim_slashes endpoint = new_client-endpoint endpoint raw cl h in
        inr (
          rw (← at)
            (elim (Bool-cases (reg.makes_request (cl.api_endpoint ++ codes "/v1/receipts"))) [
              | inl m ↦ inr (m, rw e (rw signs (rw m (_, refl, refl, same, good))))
              | inr m ↦ inl (m, rw e (rw signs (rw m refl)))
            ]))
  ]
