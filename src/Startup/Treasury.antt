-- ===== src/Startup/Treasury.antt =====
-- The observer client that a coordinator starts with.
use open_world_model.Base.{
  ◌<◌, ◌≡◌, refl, Bool, true, false, ◌⊎◌, inl, inr, Option, none, some, [], ◌∷◌, ◌++◌, arith, All,
  Bool-cases, if◌then◌else◌,
}
use mathlib.Core.Path.{subst}
use open_world_model.Base.Text.{
  Text, codes, is_empty, is_space, encode_hex, decode_hex, trim_left, trim_right, trim_space,
}
use open_world_model.Float64.{Float64}
use open_world_model.Config.{Config, ObserverConfig}
use open_world_model.Config.Transport.{grpc_transport}
use open_world_model.Observer.{client_key, pubkey_hash_hex}
use open_world_model.Observer.Crypto.{Crypto, Laws, IsKeyOfSeed}
use open_world_model.Observer.Receipt.{Receipt, hash_of}
use open_world_model.Observer.Client.{
  Client, Registry, new_client, trim_slashes, set_sender_pubkey_hash,
}
use open_world_model.Observer.Posting.{IsPost, new_client-key, submit-IsPost}
use open_world_model.Startup.{
  Host, get_info, LightningClient, StartError, observer_signing_key, observer_client,
  treasury_pubkey, or_error, present, with_sender, new_observer, start_observer, start_storage,
  load_transport, lightning_clients, Coordinator, start,
}
use open_world_model.Startup.Roles.{Gives, bind-Gives, or_error-some}

abbrev NoSpace : Text → Type 0
NoSpace s = All (λ b. is_space b ≡ false) s

trim_left-NoSpace : (s : Text) → NoSpace s → trim_left s ≡ s
unfolding trim_left
trim_left-NoSpace [] h = refl
trim_left-NoSpace (b ∷ s) (h, hs) = rw h refl

trim_right-NoSpace : (s : Text) → NoSpace s → trim_right s ≡ s
unfolding trim_right
trim_right-NoSpace [] h = refl
trim_right-NoSpace (b ∷ []) (h, hs) = rw h refl
trim_right-NoSpace (b ∷ c ∷ s) (h, hs) = rw (trim_right-NoSpace (c ∷ s) hs) refl

trim_space-NoSpace : (s : Text) → NoSpace s → trim_space s ≡ s
unfolding trim_space
trim_space-NoSpace s h = rw (trim_left-NoSpace s h) (trim_right-NoSpace s h)

encode_hex-NoSpace : (s : Text) → All (λ b. b < 256) s → NoSpace (encode_hex s)
unfolding encode_hex
encode_hex-NoSpace [] h = tt
encode_hex-NoSpace (b ∷ s) (h, hs) = (ground arith, (ground arith, encode_hex-NoSpace s hs))

module _ (crypto : Crypto) (laws : Laws crypto) where
  pubkey_hash_hex-NoSpace : (pubkey : Text) → NoSpace (pubkey_hash_hex crypto pubkey)
  unfolding pubkey_hash_hex
  pubkey_hash_hex-NoSpace pubkey = by_key (decode_hex (trim_space pubkey))
    where
      by_key : (o : Option Text) → NoSpace (hash_of crypto o)
      by_key none = tt
      by_key (some []) = tt
      by_key (some (b ∷ s)) = encode_hex-NoSpace _ (laws.sha256_bytes (b ∷ s))

  -- The key of the file, if it is one, is the key of a seed.
  abbrev pub ReadsKey : Host → ObserverConfig → Type 0
  ReadsKey h o =
      (raw key : Text)
      → h.read_file o.signing_key_path ≡ some raw
      → client_key crypto raw ≡ some key
      → IsKeyOfSeed crypto key

  abbrev url_of : Text → Text
  url_of endpoint = trim_slashes endpoint ++ codes "/v1/receipts"

  -- The one post of a client whose sender is the treasury.
  abbrev pub PostsForTreasury : Host → Text → LightningClient → Registry → Receipt → Client → Type 0
  PostsForTreasury h endpoint readonly reg r client =
      (pubkey : Text) × (get_info h readonly ≡ some pubkey)
      × IsPost crypto laws (pubkey_hash_hex crypto pubkey) reg client r (url_of endpoint)

  set_sender-Posts :
      (reg : Registry) (r : Receipt) (endpoint key hash : Text) (client : Client)
      → new_client crypto endpoint key ≡ some client
      → IsKeyOfSeed crypto client.signing_key
      → trim_space hash ≡ hash
      → is_empty hash ≡ false
      → IsPost crypto laws hash reg (set_sender_pubkey_hash crypto hash client) r (url_of endpoint)
  set_sender-Posts reg r endpoint key hash client made pair same full =
      elim (submit-IsPost crypto laws reg endpoint key hash r client made pair) [
        | inl (blank, e) ↦ absurd (ground (arith, blank, same, full))
        | inr p ↦
            subst
              (λ t.
                IsPost crypto laws t reg (set_sender_pubkey_hash crypto hash client) r
                  (url_of endpoint))
              same p
      ]

  with_sender-Posts :
      (h : Host) (readonly : LightningClient) (reg : Registry) (r : Receipt)
      (endpoint key pubkey : Text) (client : Client)
      → new_client crypto endpoint key ≡ some client
      → IsKeyOfSeed crypto client.signing_key
      → get_info h readonly ≡ some pubkey
      → Gives (PostsForTreasury h endpoint readonly reg r) (with_sender crypto pubkey client)
  unfolding with_sender set_sender_pubkey_hash
  with_sender-Posts h readonly reg r endpoint key pubkey client made pair info =
      elim (Bool-cases (is_empty (pubkey_hash_hex crypto pubkey))) [
        | inl e ↦ rw e tt
        | inr e ↦
            let same =
              trim_space-NoSpace (pubkey_hash_hex crypto pubkey) (pubkey_hash_hex-NoSpace pubkey) in
            rw e (
              pubkey,
              info,
              set_sender-Posts reg r endpoint key (pubkey_hash_hex crypto pubkey) client made pair
                  same e,
            )
      ]

  new_observer-Posts :
      (h : Host) (o : ObserverConfig) (readonly : LightningClient) (reg : Registry) (r : Receipt)
      → ReadsKey h o
      → Gives (PostsForTreasury h o.api_endpoint readonly reg r) (new_observer crypto h o readonly)
  unfolding new_observer
  new_observer-Posts h o readonly reg r pair =
      let P : Client → Type 0 = PostsForTreasury h o.api_endpoint readonly reg r in
      bind-Gives P _ (or_error observer_signing_key (h.read_file o.signing_key_path)) λ key read.
        bind-Gives P _ (or_error observer_client (new_client crypto o.api_endpoint key))
          λ client made.
            bind-Gives P _ (or_error treasury_pubkey (get_info h readonly)) λ pubkey info.
              with_sender-Posts h readonly reg r o.api_endpoint key pubkey client
                (or_error-some _ _ made)
                (pair key client.signing_key (or_error-some _ _ read)
                  (new_client-key crypto laws o.api_endpoint key client (or_error-some _ _ made)))
                (or_error-some _ _ info)

  -- A client is there if the observer is enabled, and posts for the treasury.
  abbrev pub IsReady :
      Host → ObserverConfig → LightningClient → Registry → Receipt → Option Client → Type 0
  IsReady h o readonly reg r none = o.enabled ≡ false
  IsReady h o readonly reg r (some client) =
      (o.enabled ≡ true) × PostsForTreasury h o.api_endpoint readonly reg r client

  start_observer-IsReady :
      (h : Host) (o : ObserverConfig) (readonly : LightningClient) (reg : Registry) (r : Receipt)
      → ReadsKey h o
      → Gives (IsReady h o readonly reg r) (start_observer crypto h o readonly)
  unfolding start_observer
  start_observer-IsReady h o readonly reg r pair = by_flag o.enabled refl
    where
      with_client :
          (p : StartError ⊎ Client)
          → o.enabled ≡ true
          → Gives (PostsForTreasury h o.api_endpoint readonly reg r) p
          → Gives (IsReady h o readonly reg r) (present p)
      with_client (inl x) e g = tt
      with_client (inr client) e g = (e, g)

      by_flag :
          (b : Bool)
          → o.enabled ≡ b
          → Gives
              (IsReady h o readonly reg r)
              (if b then present (new_observer crypto h o readonly) else inr none)
      by_flag true e =
          with_client (new_observer crypto h o readonly) e
            (new_observer-Posts h o readonly reg r pair)
      by_flag false e = e

  -- Where the file of the signing key holds no key but that of a seed: a coordinator that starts has an
  -- observer client exactly if the configuration enables it, and that client submits every receipt
  -- with one post to the configured endpoint's URL: signed under its key, the sender the hash of the
  -- public key that the read-only Lightning client reported; or, where no request can be made of that
  -- URL, it returns this error and posts nothing.
  pub start-IsReady :
      (fp : Float64) (h : Host) (c : Config fp.F) (reg : Registry) (r : Receipt)
      → ReadsKey h c.observer
      → Gives
          (λ k. IsReady h c.observer k.lightning.readonly reg r k.observer)
          (start fp crypto h c)
  unfolding start
  start-IsReady fp h c reg r pair =
      let P : Coordinator fp → Type 0 =
        λ k. IsReady h c.observer k.lightning.readonly reg r k.observer in
      bind-Gives P _ (lightning_clients h c.dev_mode c.lightning) λ cs made.
        bind-Gives P _ (start_storage c.s3) λ s made_s.
          bind-Gives P _ (start_observer crypto h c.observer cs.readonly) λ o made_o.
            bind-Gives P _ (load_transport h c.server (grpc_transport c.dev_mode c.server))
              λ t made_t.
                subst (Gives (IsReady h c.observer cs.readonly reg r)) made_o
                  (start_observer-IsReady h c.observer cs.readonly reg r pair)
