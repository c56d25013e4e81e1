-- ===== src/Lightning/Closed.antt =====
-- That a channel from LND's list is the channel that is closed.
use open_world_model.Base.{
  ℕ, ◌^◌, ◌<◌, zero, suc, ◌≡◌, ◌↔◌, ◌≢◌, refl, true, Option, none, some, List, [], ◌∷◌, ◌++◌, arith,
  All,
}
use open_world_model.Base.Int.{pos}
use open_world_model.Base.Text.{Text, decimal}
use open_world_model.Base.Decimal.{scan_digits-decimal, AreDigits, decimal-AreDigits}
use open_world_model.Lightning.Channels.{LndChannel, lnd_to_channel}
use open_world_model.Lightning.Closing.{
  split_at, skip_blank, scan_uint32, CloseRequest, CloseEvent, update, end_of_stream, recv_error,
  close_loop, close_request, closes_well, lnd_force_close_chan,
}

split_at-append : (c : ℕ) (s t : Text) → All (λ b. b ≢ c) s → split_at c (s ++ c ∷ t) ≡ (s, some t)
unfolding split_at
split_at-append c [] t h = ground arith
split_at-append c (b ∷ s) t (h, hs) = ground (arith, split_at-append c s t hs)

skip_blank-AreDigits : (s : Text) → AreDigits s → skip_blank s ≡ s
unfolding skip_blank
skip_blank-AreDigits [] h = refl
skip_blank-AreDigits (c ∷ s) (h, hs) = ground arith

scan_uint32-decimal : (n : ℕ) → n < 2 ^ 32 → scan_uint32 (decimal (pos n)) ≡ n
unfolding scan_uint32
scan_uint32-decimal n h =
    rw (skip_blank-AreDigits (decimal (pos n)) (decimal-AreDigits n), scan_digits-decimal n)
      (ground arith)

close_request-point :
    (txid : Text) (n : ℕ)
    → All (λ b. b ≢ b':') txid
    → n < 2 ^ 32
    → close_request (txid ++ b':' ∷ decimal (pos n))
      ≡ record { funding_txid = txid; output_index = n; force = true }
unfolding close_request
close_request-point txid n colon small =
    rw (split_at-append b':' txid (decimal (pos n)) colon, scan_uint32-decimal n small) refl

-- So many of one thing.
abbrev pub replicate : {A : Type 0} → ℕ → A → List A
replicate zero x = []
replicate (suc n) x = x ∷ replicate n x

listed_id :
    (ch : LndChannel) (txid : Text) (n : ℕ)
    → ch.channel_point ≡ txid ++ b':' ∷ decimal (pos n)
    → (lnd_to_channel ch).channel_id ≡ txid ++ b':' ∷ decimal (pos n)
listed_id ch [] n e = rw e refl
listed_id ch (b ∷ txid) n e = rw e refl

-- LND opened the stream, which gave some updates and then its end.
abbrev pub ClosesWell : Option (List CloseEvent) → Type 0
ClosesWell o =
    (n : ℕ) × (rest : List CloseEvent) × (o ≡ some (replicate n update ++ end_of_stream ∷ rest))

close_loop-ends :
    (n : ℕ) (rest : List CloseEvent)
    → close_loop (replicate n update ++ end_of_stream ∷ rest) ≡ true
unfolding close_loop
close_loop-ends zero rest = refl
close_loop-ends (suc n) rest = close_loop-ends n rest

ends-close_loop : (es : List CloseEvent) → close_loop es ≡ true → ClosesWell (some es)
unfolding close_loop
ends-close_loop [] h = absurd (ground arith)
ends-close_loop (update ∷ es) h =
    let (n, rest, e) = ends-close_loop es h in
    let same : es ≡ replicate n update ++ end_of_stream ∷ rest = cc in (suc n, rest, rw same refl)
ends-close_loop (end_of_stream ∷ es) h = (zero, es, refl)
ends-close_loop (recv_error ∷ es) h = absurd (ground arith)

closes_well-ClosesWell : (o : Option (List CloseEvent)) → (closes_well o ≡ true) ↔ ClosesWell o
closes_well-ClosesWell none = ((λ h. absurd (ground arith)), λ (n, rest, e). absurd (ground arith))
closes_well-ClosesWell (some es) = (
  ends-close_loop es,
  λ (n, rest, e).
      let same : es ≡ replicate n update ++ end_of_stream ∷ rest = cc in
      rw same (close_loop-ends n rest),
)

-- The id that LND's client lists for a channel closes that channel: of a row whose channel point is
-- a transaction id without a colon and an output index below 2 to the 32, `ForceCloseChan` asks for
-- the forced close of this transaction's output of this index, and returns no error if and only if
-- LND opens the stream of the close and it ends after nothing but updates.
pub lnd_force_close_chan-listed :
    (lnd : CloseRequest → Option (List CloseEvent)) (ch : LndChannel) (txid : Text) (n : ℕ)
    → ch.channel_point ≡ txid ++ b':' ∷ decimal (pos n)
    → All (λ b. b ≢ b':') txid
    → n < 2 ^ 32
    → (lnd_force_close_chan lnd (lnd_to_channel ch).channel_id ≡ true)
      ↔ ClosesWell (lnd (record { funding_txid = txid; output_index = n; force = true }))
unfolding lnd_force_close_chan
lnd_force_close_chan-listed lnd ch txid n point colon small =
    rw (listed_id ch txid n point, close_request-point txid n colon small)
      (closes_well-ClosesWell
        (lnd (record { funding_txid = txid; output_index = n; force = true })))
