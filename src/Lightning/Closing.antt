-- ===== src/Lightning/Closing.antt =====
-- lnd_client.go: the forced close of a channel by its id.
use open_world_model.Base.{
  ℕ, ◌^◌, Bool, true, false, ◌||◌, Option, none, some, List, [], ◌∷◌, ◌==◌, if◌then◌else◌, ltb, leb,
  ◌&&◌,
}
use open_world_model.Base.Text.{Text}
use open_world_model.Base.Decimal.{scan_digits}

-- strings.SplitN(s, c, 2): what stands before the first c, and after it.
unfoldable pub split_at : ℕ → Text → Text × Option Text
split_at c [] = ([], none)
split_at c (b ∷ s) =
    let rest = split_at c s in if b == c then ([], some s) else (b ∷ rest.0, rest.1)

-- Spaces other than a newline, at which fmt.Sscanf gives up.
abbrev is_blank : ℕ → Bool
is_blank c = c == 9 || (leb 11 c && leb c 13) || c == 32

unfoldable pub skip_blank : Text → Text
skip_blank [] = []
skip_blank (b ∷ s) = if is_blank b then skip_blank s else b ∷ s

-- fmt.Sscanf of "%d" into a uint32 that is 0: a text without a number and one too large leave it.
abbrev pub narrow : ℕ → ℕ
narrow n = if ltb n (2 ^ 32) then n else 0

unfoldable pub scan_uint32 : Text → ℕ
unfolding skip_blank scan_digits
scan_uint32 s = narrow (scan_digits 0 (skip_blank s))

-- lnrpc.CloseChannelRequest with its lnrpc.ChannelPoint
pub record CloseRequest : Type 0 where
  pub funding_txid : Text
  pub output_index : ℕ
  pub force : Bool

abbrev index_of : Option Text → ℕ
index_of none = 0
index_of (some s) = scan_uint32 s

unfoldable pub close_request : Text → CloseRequest
unfolding split_at scan_uint32
close_request id =
    let parts = split_at b':' id in
    record { funding_txid = parts.0; output_index = index_of parts.1; force = true }

-- What `Recv` gives; a stream that goes on is ended by the deadline, an error.
pub data CloseEvent : Type 0 where
  update end_of_stream recv_error : CloseEvent

unfoldable pub close_loop : List CloseEvent → Bool
close_loop [] = false
close_loop (update ∷ es) = close_loop es
close_loop (end_of_stream ∷ es) = true
close_loop (recv_error ∷ es) = false

abbrev pub closes_well : Option (List CloseEvent) → Bool
closes_well none = false
closes_well (some es) = close_loop es

-- `ForceCloseChan`, by the stream that LND opens for a request: whether it returns no error.
unfoldable pub lnd_force_close_chan : (CloseRequest → Option (List CloseEvent)) → Text → Bool
unfolding close_request close_loop
lnd_force_close_chan lnd id = closes_well (lnd (close_request id))
