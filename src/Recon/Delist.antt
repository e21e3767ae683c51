-- ===== src/Recon/Delist.antt =====
-- backend/internal/recon/recon.go: the delist pass of `planFrom`.
pub mod Cause
pub mod Reasons
use rent_auto.Prelude.{
  ℕ, ◌+◌, String, Bool, true, false, not, ◌&&◌, ◌||◌, Option, none, some, List, [], ◌∷◌, ◌++◌, ◌==◌,
  ltb, leb, text_append, ℤ, if◌then◌else◌, is_some, length, any, update, update₂, update_at,
}
use rent_auto.Domain.{Channel, channel_uu, channel_eco}
use rent_auto.Pricing.{Decision}
use rent_auto.Recon.{
  Item, Listing, Action, Snapshot, desired_channels, contains_channel, is_leased, publish_action,
  delist_action,
}
use rent_auto.Recon.Want.{Want, channels_of}

-- `kept`, `observations` and the plan so far
pub record DelistState (F : Type 0) : Type 0 where
  pub kept : String → Channel → ℕ
  pub observations : ℕ → Option String
  pub plan : List (Action F)

-- the `switch` of the delist pass; `none` is its default, a listing that stays
unfoldable pub delist_reason : Want → Bool → ℕ → Listing → Option String
unfolding contains_channel
delist_reason want uu_healthy kept l =
    let chs = want.desired l.hash_name in
    let routed = contains_channel (channels_of chs) l.channel in
    if not routed && not (is_some chs)
    then some "orphan_not_routable"
    else if not routed
    then some (
        if l.channel == channel_uu
          && not uu_healthy
          && (want.route l.hash_name == "uu_primary_eco_fallback")
        then "uu_unhealthy_failover"
        else "not_routed")
    else if leb (want.copies l.hash_name l.channel) kept
    then some "surplus_copies"
    else none

-- `reason != "not_routed" && reason != "uu_unhealthy_failover"`
abbrev pub is_graced : String → Bool
is_graced reason = not (reason == "not_routed") && not (reason == "uu_unhealthy_failover")

abbrev pub since_mature : ℕ → ℕ → Option ℕ → Bool
since_mature now grace none = false
since_mature now grace (some since) = leb (since + grace) now

-- The mismatch was observed before for the same reason, and not after `now.Add(-orphanGrace)`.
abbrev pub is_mature : ℕ → ℕ → Listing → String → Bool
is_mature now grace l reason =
    (l.mismatch_reason == reason) && since_mature now grace l.mismatch_since

module _ {F : Type 0} (want : Want) (uu_healthy : Bool) (now grace : ℕ) where
  abbrev pub delist_by : Listing → DelistState F → Option String → DelistState F
  delist_by l st none = record st {
    kept = update₂ st.kept l.hash_name l.channel (st.kept l.hash_name l.channel + 1);
  }
  delist_by l st (some reason) =
      let observed =
        if is_graced reason
        then record st { observations = update_at st.observations l.id (some reason) }
        else st in
      if is_graced reason && not (is_mature now grace l reason)
      then observed
      else record observed { plan = st.plan ++ (delist_action l reason ∷ []) }

  -- the body of the loop
  unfoldable pub delist_listing : DelistState F → Listing → DelistState F
  unfolding delist_reason
  delist_listing st l =
      let cleared = record st { observations = update_at st.observations l.id (some "") } in
      if is_leased l
      then cleared
      else delist_by l cleared (delist_reason want uu_healthy (st.kept l.hash_name l.channel) l)

  unfoldable pub delist_listings : List Listing → DelistState F → DelistState F
  unfolding delist_listing
  delist_listings [] st = st
  delist_listings (l ∷ ls) st = delist_listings ls (delist_listing st l)
