-- ===== src/Registry/Defs.antt =====
-- The statements on the table of nodes, the gauge of nodes by tier and status, and the message
-- that a registration signs.
use open_world_model.Base.{
  ℕ, ◌-◌, ◌*◌, suc, Bool, ◌&&◌, Option, none, some, List, ◌∷◌, ◌++◌, ◌==◌, if◌then◌else◌, length,
}
use open_world_model.Base.Int.{ℤ, pos, negsuc, ◌+ℤ◌, ◌-ℤ◌, ltb_ℤ}
use open_world_model.Base.Text.{Text, codes, text_eq, decode_hex, decimal}
use open_world_model.World.{
  World, Tier, tier_text, tier_eq, NodeStatus, status_eq, Node, Hardware, TaskType, pending,
}

-- NodeCapabilities
pub record NodeCapabilities : Type 0 where
  pub tier : Tier
  pub hardware : Hardware
  pub supported_task_types : List TaskType

-- A number of seconds, in nanoseconds.
abbrev pub nanos : ℤ → ℤ
nanos (pos n) = pos (n * 1000000000)
nanos (negsuc n) = negsuc (suc n * 1000000000 - 1)

-- `time.Since(t) > 5*time.Minute`. Go's difference of times stops at 292 years, on the same side.
abbrev pub is_too_old : ℕ → ℤ → Bool
is_too_old time ts = ltb_ℤ (pos 300000000000) (pos time -ℤ nanos ts)

-- canonicalRegisterMessage: owm-register|pubkey|lnURI|tier|timestamp
unfoldable pub canonical_register_message : Text → Text → Tier → ℤ → Text
canonical_register_message pub_key ln_uri tier ts =
    codes "owm-register|"
    ++ (pub_key ++ (b'|' ∷ (ln_uri ++ (b'|' ∷ (tier_text tier ++ (b'|' ∷ decimal ts))))))

-- An Ed25519 public key in hexadecimal is 32 bytes.
abbrev pub public_key_bytes : Text → Option Text
public_key_bytes key = elim (decode_hex key) [
  | none ↦ none
  | some bytes ↦ if length bytes == 32 then some bytes else none
]

abbrev pub has_key : Text → Node → Bool
has_key key n = text_eq n.public_key key

abbrev pub has_id : ℕ → Node → Bool
has_id id n = n.node_id == id

-- The columns that `DO UPDATE SET` lists; the others keep their values.
abbrev pub renew : Node → Node → Node
renew new old = record old {
  ln_node_uri = new.ln_node_uri;
  onion_address = new.onion_address;
  tier = new.tier;
  hardware = new.hardware;
  supported_task_types = new.supported_task_types;
  status = pending;
  registered_at = new.registered_at;
}

-- The metric `OwmNodesTotal`: `Inc` and `Dec` of a label.
abbrev pub is_labelled : Tier → NodeStatus → Tier → NodeStatus → Bool
is_labelled t s t' s' = tier_eq t t' && status_eq s s'

abbrev pub gauge_inc : Tier → NodeStatus → World → World
gauge_inc t s w = record w {
  nodes_total =
      λ t' s'. if is_labelled t s t' s' then w.nodes_total t' s' +ℤ pos 1 else w.nodes_total t' s';
}

abbrev pub gauge_dec : Tier → NodeStatus → World → World
gauge_dec t s w = record w {
  nodes_total =
      λ t' s'. if is_labelled t s t' s' then w.nodes_total t' s' -ℤ pos 1 else w.nodes_total t' s';
}
