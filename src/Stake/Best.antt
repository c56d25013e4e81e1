-- ===== src/Stake/Best.antt =====
-- The search of `VerifyStake` for the best channel, and its result.
use open_world_model.Base.{
  suc, ◌≡◌, refl, true, false, ◌⊎◌, inl, inr, none, some, List, [], ◌∷◌, arith, All, Bool-cases,
  ◌&&◌,
}
use open_world_model.Base.Int.{ℤ, ◌≤ℤ◌, ◌<ℤ◌, leb_ℤ, ltb_ℤ}
use open_world_model.Base.Text.{Text}
use mathlib.Core.List.{Memᴰ}
use open_world_model.World.{World, Channel, Tier, ok}
use open_world_model.Float64.{Float64}
use open_world_model.Stake.Defs.{
  StakeFailure, Verifier, tier_minimums, best_channel, verify_stake, found_result, failed_result,
}

-- A channel of the list that qualifies and that no channel of the list exceeds.
abbrev pub IsBestOf : ℤ → List Channel → Channel → Type 0
IsBestOf tier_min chs best =
    (tier_min ≤ℤ best.local_balance_sats)
    × All (λ ch. ch.local_balance_sats ≤ℤ best.local_balance_sats) chs
    × Memᴰ best chs

-- From a candidate the search goes up, to the candidate or to a channel of the list.
climb :
    (tier_min : ℤ) (b : Channel) (chs : List Channel)
    → tier_min ≤ℤ b.local_balance_sats
    → (r : Channel) × (best_channel tier_min (some b) chs ≡ some r)
      × (b.local_balance_sats ≤ℤ r.local_balance_sats)
      × All (λ ch. ch.local_balance_sats ≤ℤ r.local_balance_sats) chs
      × ((r ≡ b) ⊎ Memᴰ r chs)
unfolding best_channel
climb m b [] h = (b, refl, omega arith, tt, inl refl)
climb m b (ch ∷ chs) h =
    elim (Bool-cases
      (leb_ℤ m ch.local_balance_sats && ltb_ℤ b.local_balance_sats ch.local_balance_sats)) [
        | inl e ↦
            (let (r, found, up, rest, from) = climb m ch chs (ground arith) in
              (
                r,
                rw e found,
                ground arith,
                (up, rest),
                elim from [ inl p ↦ inr (Memᴰ.head p) | inr q ↦ inr (Memᴰ.tail q) ],
              ))
        | inr e ↦
            (let (r, found, up, rest, from) = climb m b chs h in
              (
                r,
                rw e found,
                up,
                (ground arith, rest),
                elim from [ inl p ↦ inl p | inr q ↦ inr (Memᴰ.tail q) ],
              ))
      ]

-- The search finds a best channel, or finds none and then no channel reaches the minimum.
pub best_channel_lem :
    (tier_min : ℤ) (chs : List Channel)
    → ((best_channel tier_min none chs ≡ none) × All (λ ch. ch.local_balance_sats <ℤ tier_min) chs)
      ⊎ ((r : Channel) × (best_channel tier_min none chs ≡ some r) × IsBestOf tier_min chs r)
unfolding best_channel
best_channel_lem m [] = inl (refl, tt)
best_channel_lem m (ch ∷ chs) = elim (Bool-cases (leb_ℤ m ch.local_balance_sats)) [
  | inl e ↦
      (let (r, found, up, rest, from) = climb m ch chs (ground arith) in
        inr (
          r,
          rw e found,
          (ground arith, (up, rest), elim from [ inl p ↦ Memᴰ.head p | inr q ↦ Memᴰ.tail q ]),
        ))
  | inr e ↦ elim (best_channel_lem m chs) [
    | inl (missing, low) ↦ inl (rw e missing, (ground arith, low))
    | inr (r, found, (enough, top, at)) ↦
        inr (r, rw e found, (enough, (ground arith, top), Memᴰ.tail at))
  ]
]

-- With a client, a known tier and a call that succeeds, `VerifyStake` returns a result and no
-- error: not ok, where every channel of the key is below the tier's minimum, or ok, with a channel
-- that is at or above the minimum and whose balance no other one exceeds.
pub verify_stake_lem :
    (fp : Float64) (v : Verifier) (key : Text) (tier : Tier) (m : ℤ) (w : World)
    → v.has_readonly ≡ true
    → tier_minimums tier ≡ some m
    → w.env.fails w.tick ≡ false
    → let chs = w.env.channels (suc w.tick) key in
      (((verify_stake fp v key tier w).0
          ≡ ok (failed_result fp m (StakeFailure.insufficient_stake m)))
        × All (λ ch. ch.local_balance_sats <ℤ m) chs)
      ⊎ ((ch : Channel) × ((verify_stake fp v key tier w).0 ≡ ok (found_result fp m ch))
          × IsBestOf m chs ch)
unfolding verify_stake
verify_stake_lem fp v key tier m w client known fine =
    elim (best_channel_lem m (w.env.channels (suc w.tick) key)) [
      | inl (missing, low) ↦ inl (rw client (rw known (rw fine (rw missing refl))), low)
      | inr (r, found, best) ↦ inr (r, rw client (rw known (rw fine (rw found refl))), best)
    ]
