-- ===== src/Startup/Roles.antt =====
-- Which Lightning client each role gets.
use open_world_model.Base.{◌≡◌, refl, Bool, true, false, ◌⊎◌, inl, inr, Option, none, some}
use open_world_model.Base.Text.{Text, codes, is_empty}
use open_world_model.Float64.{Float64}
use open_world_model.Config.{Config, LightningConfig}
use open_world_model.Lightning.{new_mock, hex_encode_macaroon}
use open_world_model.Lightning.Cln.{new_cln_client}
use open_world_model.Observer.Crypto.{Crypto}
use open_world_model.Startup.{
  Host, LightningClient, LightningClients, mock, cln, lnd, all_roles, StartError, ◌>>=◌, or_error,
}

-- A client whose macaroon is the content of the file, and which has a certificate unless that is empty.
abbrev pub HasMacaroon : Host → LightningConfig → Text → LightningClient → Type 0
HasMacaroon h l path client =
    (macaroon : Text) × (h.read_file path ≡ some macaroon)
    × (client
        ≡ lnd (record {
          host = l.lnd_host;
          tls_cert_path = l.tls_cert_path;
          macaroon_hex = hex_encode_macaroon macaroon;
        }))
    × ((is_empty macaroon ≡ true) ⊎ (is_empty l.tls_cert_path ≡ false))

-- The three clients of a backend.
abbrev pub IsChosen : Host → Bool → LightningConfig → LightningClients → Type 0
IsChosen h dev_mode l cs =
    ((dev_mode ≡ true) × (cs ≡ all_roles (mock new_mock)))
    ⊎ ((dev_mode ≡ false)
        × (l.backend ≡ codes "cln")
        × (cs ≡ all_roles (cln (new_cln_client l.cln.base_url l.cln.api_key))))
    ⊎ ((dev_mode ≡ false)
        × HasMacaroon h l l.readonly_macaroon_path cs.readonly
        × HasMacaroon h l l.payment_macaroon_path cs.payment
        × HasMacaroon h l l.slashing_macaroon_path cs.slashing)

-- What a start that gives no error satisfies.
abbrev pub Gives : {A : Type 0} → (A → Type 0) → StartError ⊎ A → Type 0
Gives P (inl e) = Unit
Gives P (inr a) = P a

pub bind-Gives :
    {A B : Type 0} (P : B → Type 0) (f : A → StartError ⊎ B) (r : StartError ⊎ A)
    → ((a : A) → r ≡ inr a → Gives P (f a))
    → Gives P (r >>= f)
bind-Gives P f (inl e) h = tt
bind-Gives P f (inr a) h = h a refl

pub or_error-some :
    {A : Type 0} (e : StartError) {a : A} (o : Option A) → or_error e o ≡ inr a → o ≡ some a
or_error-some e none h = absurd cc
or_error-some e (some b) h = cc
