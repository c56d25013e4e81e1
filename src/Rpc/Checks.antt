-- ===== src/Rpc/Checks.antt =====
-- The checks of a request: its timestamp, its signature, and the key of a gradient's object.
use open_world_model.Base.{
  ℕ, zero, suc, Bool, false, ◌&&◌, ◌||◌, Option, none, some, [], ◌∷◌, ◌++◌, ◌==◌, if◌then◌else◌,
  leb,
}
use open_world_model.Base.Int.{ℤ, pos, ◌-ℤ◌, ltb_ℤ}
use open_world_model.Base.Text.{
  Text, codes, text_eq, is_empty, encode_hex, decimal, strip_prefix, trim_prefix,
}
use open_world_model.World.{
  Env, Tier, t2, t3, M, Error, timestamp_too_old, timestamp_in_future, signature_required,
  invalid_public_key, invalid_signature, raise_if, now, ◌>>=◌, ◌>>◌,
}
use open_world_model.Registry.{nanos, is_too_old, public_key_bytes}

-- `t.Sub(now) > 30*time.Second`
abbrev pub is_in_future : ℕ → ℤ → Bool
is_in_future time ts = ltb_ℤ (pos 30000000000) (nanos ts -ℤ pos time)

unfoldable pub validate_timestamp : ℤ → M Unit
validate_timestamp ts = do
  time ← now
  raise_if (is_too_old time ts) timestamp_too_old
  raise_if (is_in_future time ts) timestamp_in_future

-- owm-task-result|<task_id>|<output_hash_hex>
unfoldable pub canonical_task_result_message : Text → Text → Text
canonical_task_result_message task_id output_hash_hex =
    codes "owm-task-result|" ++ (task_id ++ (b'|' ∷ output_hash_hex))

-- `none` is no error.
unfoldable pub check_key : Env → Option Text → Text → Text → Option Error
check_key env none msg sig = some invalid_public_key
check_key env (some key) msg sig = if env.verify key msg sig then none else some invalid_signature

unfoldable pub verify_task_result_sig : Env → Text → Text → Text → Text → Option Error
unfolding check_key
verify_task_result_sig env pub_key task_id output_hash sig =
    if is_empty sig
    then some signature_required
    else check_key env (public_key_bytes pub_key)
        (canonical_task_result_message task_id (encode_hex output_hash)) sig

abbrev pub stake_min_sats : Tier → ℤ
stake_min_sats t2 = pos 500000
stake_min_sats t3 = pos 2000000
stake_min_sats _ = pos 100000

abbrev pub is_digit : ℕ → Bool
is_digit c = leb b'0' c && leb c b'9'

abbrev pub is_uuid_char : ℕ → Bool
is_uuid_char c = is_digit c || (leb b'a' c && leb c b'f') || c == b'-'

-- A class so many times, and the rest.
take_class : (ℕ → Bool) → ℕ → Text → Option Text
take_class p zero s = some s
take_class p (suc k) [] = none
take_class p (suc k) (c ∷ s) = if p c then take_class p k s else none

drop_digits : Text → Text
drop_digits [] = []
drop_digits (c ∷ s) = if is_digit c then drop_digits s else c ∷ s

abbrev and_then : Option Text → (Text → Bool) → Bool
and_then none k = false
and_then (some s) k = k s

-- ^gradients/[0-9]+/[0-9a-f-]{36}\.bin$
unfoldable pub matches_gradient_key : Text → Bool
unfolding take_class drop_digits
matches_gradient_key key = and_then (strip_prefix (codes "gradients/") key) λ s.
    and_then (take_class is_digit 1 s) λ s'.
      and_then (strip_prefix (codes "/") (drop_digits s'))
        λ rest. and_then (take_class is_uuid_char 36 rest) λ tail. text_eq tail (codes ".bin")

-- fmt.Sprintf("gradients/%d/%s.bin", …)
unfoldable pub expected_key : ℤ → Text → Text
expected_key n node = codes "gradients/" ++ (decimal n ++ (b'/' ∷ (node ++ codes ".bin")))

-- `key`: the URL's path without its first slash, or the whole URL if that is empty.
abbrev pub key_or_url : Text → Text → Text
key_or_url url [] = url
key_or_url url (c ∷ s) = c ∷ s

-- What the handler takes for the object's key, or none where it refuses the URL.
unfoldable pub checked_path : ℤ → Text → Text → Option Text → Option Text
checked_path n node url none = none
checked_path n node url (some path) =
    let key = key_or_url url (trim_prefix (codes "/") path) in
    if matches_gradient_key key && text_eq key (expected_key n node) then some key else none

unfoldable pub gradient_key : Env → ℤ → Text → Text → Option Text
unfolding checked_path
gradient_key env n node url =
    if is_empty url then none else checked_path n node url (env.url_path url)
