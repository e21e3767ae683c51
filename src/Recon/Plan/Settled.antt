-- ===== src/Recon/Plan/Settled.antt =====
-- A settled shelf plans nothing: the fixed point of the reconciliation cycle.
use rent_auto.Prelude.{
  ℕ, suc, ◌+◌, ◌≤◌, String, Bool, true, false, ◌||◌, List, [], ◌∷◌, ◌==◌, ◌≡◌, refl, filter, All,
  any, arith, eq_iff, eq_refl, Bool-cases, inl, inr, Option, none, some, update_at, update₂, ◌∙◌,
  ap,
}
use rent_auto.Domain.{Channel}
use rent_auto.Pricing.{Decision}
use rent_auto.Recon.{Item, Listing, Action, Snapshot, is_leased, contains_channel}
use rent_auto.Recon.Want.{Want, want_of, leased_of, listed_of, uu_healthy_of, channels_of}
use rent_auto.Recon.Want.Grouping.{is_at}
use rent_auto.Recon.Publish.{PublishState, publish_channel, publish_channels, publish_items}
use rent_auto.Recon.Publish.Step.{live, has_asset, scan_fresh}
use rent_auto.Recon.Delist.{DelistState, delist_reason, delist_listing, delist_listings}
use rent_auto.Recon.Plan.{plan_from}

module _ {F S : Type 0} (decide : S → Channel → Item F → S × Option (Decision F)) (want : Want)
    (leased : String → Bool) (listed : String → Channel → List Listing) where
  abbrev pub IsListed : Item F → Channel → Type 0
  IsListed it ch = has_asset it.asset_id (listed it.hash_name ch) ≡ true

  publish_channel_listed :
      (it : Item F) (st : PublishState F S) (ch : Channel)
      → IsListed it ch
      → publish_channel decide want leased listed it st ch ≡ st
  unfolding publish_channel
  publish_channel_listed it st ch l =
      elim (Bool-cases (any (λ a. a == it.asset_id) (st.planned it.hash_name ch))) [
        | inl e ↦ rw e
        | inr e ↦ rw (e, scan_fresh it.asset_id, l)
      ]

  publish_channels_listed :
      (it : Item F) (chs : List Channel) (st : PublishState F S)
      → All (IsListed it) chs
      → publish_channels decide want leased listed it chs st ≡ st
  unfolding publish_channels
  publish_channels_listed it [] st ls = refl
  publish_channels_listed it (ch ∷ chs) st (l, ls) =
      rw (publish_channel_listed it st ch l) (publish_channels_listed it chs st ls)

  -- Each asset that may be published stands on every channel that its hash wants.
  abbrev pub IsPlaced : Item F → Type 0
  IsPlaced it =
      (it.asset_id == "" || leased it.asset_id) ≡ false
      → All (IsListed it) (channels_of (want.desired it.hash_name))

  pub publish_items_placed :
      (its : List (Item F)) (st : PublishState F S)
      → All IsPlaced its
      → publish_items decide want leased listed its st ≡ st
  unfolding publish_items
  publish_items_placed [] st p = refl
  publish_items_placed (it ∷ its) st (p, ps) =
      elim (Bool-cases (it.asset_id == "" || leased it.asset_id)) [
        | inl e ↦ rw e (publish_items_placed its st ps)
        | inr e ↦ rw (e, publish_channels_listed it _ st (p e)) (publish_items_placed its st ps)
      ]

module _ (want : Want) (uu_healthy : Bool) where
  -- The hash of a listing that is not leased wants its channel.
  abbrev pub IsRouted : Listing → Type 0
  IsRouted l =
      is_leased l ≡ false
      → contains_channel (channels_of (want.desired l.hash_name)) l.channel ≡ true

  delist_reason_within :
      (kept : ℕ) (l : Listing)
      → contains_channel (channels_of (want.desired l.hash_name)) l.channel ≡ true
      → suc kept ≤ want.copies l.hash_name l.channel
      → delist_reason want uu_healthy kept l ≡ none
  unfolding delist_reason
  delist_reason_within kept l r k = rw r (ground arith)

module _ {F : Type 0} (want : Want) (uu_healthy : Bool) (now grace : ℕ) where
  abbrev cleared : DelistState F → Listing → DelistState F
  cleared st l = record st { observations = update_at st.observations l.id (some "") }

  abbrev kept_one : DelistState F → Listing → DelistState F
  kept_one st l = record (cleared st l) {
    kept = update₂ st.kept l.hash_name l.channel (st.kept l.hash_name l.channel + 1);
  }

  delist_listing_leased :
      (st : DelistState F) (l : Listing)
      → is_leased l ≡ true
      → delist_listing want uu_healthy now grace st l ≡ cleared st l
  unfolding delist_listing
  delist_listing_leased st l e = rw e

  delist_listing_kept :
      (st : DelistState F) (l : Listing)
      → is_leased l ≡ false
      → delist_reason want uu_healthy (st.kept l.hash_name l.channel) l ≡ none
      → delist_listing want uu_healthy now grace st l ≡ kept_one st l
  unfolding delist_listing
  delist_listing_kept st l e n = rw (e, n)

  pub delist_listings_settled :
      (ls : List Listing) (st : DelistState F)
      → All (IsRouted want uu_healthy) ls
      → ((h : String) (ch : Channel)
          → st.kept h ch + live (filter (is_at h ch) ls) ≤ want.copies h ch)
      → (delist_listings want uu_healthy now grace ls st).plan ≡ st.plan
  unfolding delist_listings
  delist_listings_settled [] st r k = refl
  delist_listings_settled (l ∷ ls) st (r, rs) k = elim (Bool-cases (is_leased l)) [
    | inl e ↦
        ap after (delist_listing_leased st l e)
        ∙ delist_listings_settled ls (cleared st l) rs (λ h ch. ground (arith, k h ch))
    | inr e ↦
        let within =
          delist_reason_within want uu_healthy (st.kept l.hash_name l.channel) l (r e)
            (ground (arith, k l.hash_name l.channel, eq_refl l.hash_name, eq_refl l.channel)) in
        ap after (delist_listing_kept st l e within)
        ∙ delist_listings_settled ls (kept_one st l) rs
            (λ h ch. ground (arith, k h ch, eq_iff h l.hash_name, eq_iff ch l.channel))
  ]
    where
      after : DelistState F → List (Action F)
      after s = (delist_listings want uu_healthy now grace ls s).plan

module _ {F S : Type 0} (decide : S → Channel → Item F → S × Option (Decision F))
    (snap : Snapshot F) where
  -- If every asset that may be published is listed wherever its hash is wanted, every listing that
  -- is not leased is on a channel that its hash wants, and no hash has more of these on a channel
  -- than wanted copies, then the plan is empty and no decision was asked for.
  pub plan_from_settled :
      (now grace : ℕ) (mem : S)
      → All (IsPlaced decide (want_of snap) (leased_of snap) (listed_of snap)) snap.items
      → All (IsRouted (want_of snap) (uu_healthy_of snap)) snap.listings
      → ((h : String) (ch : Channel)
          → live (filter (is_at h ch) snap.listings) ≤ (want_of snap).copies h ch)
      → ((plan_from decide snap now grace mem).plan ≡ [])
        × ((plan_from decide snap now grace mem).mem ≡ mem)
  unfolding plan_from
  plan_from_settled now grace mem placed routed within =
      let p =
        publish_items_placed decide (want_of snap) (leased_of snap) (listed_of snap) snap.items
          (record { planned = λ _ _. []; plan = []; mem = mem }) placed in
      (
        delist_listings_settled (want_of snap) (uu_healthy_of snap) now grace snap.listings _ routed
              (λ h ch. omega (arith, within h ch))
            ∙ ap (λ st. st.plan) p,
        ap (λ st. st.mem) p,
      )
