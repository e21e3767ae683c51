-- ===== src/Recon/Plan/Justified.antt =====
-- What justifies an action of a plan, in terms of the snapshot alone (backend/internal/recon/recon.go).
use rent_auto.Prelude.{
  ◌<◌, ◌==◌, any, length, IsDistinct, ℕ, ◌+◌, ◌≤◌, String, true, false, List, ◌≡◌, ◌≢◌, All, Memᴰ,
  some, filter,
}
use rent_auto.Domain.{Channel}
use rent_auto.Pricing.{Decision}
use rent_auto.Recon.{
  Item, Listing, Action, Snapshot, is_leased, publish_action, delist_action, desired_channels,
  contains_channel,
}
use rent_auto.Recon.Want.{leased_of, uu_healthy_of}
use rent_auto.Recon.Want.Grouping.{is_at}
use rent_auto.Recon.Want.Copies.{wants}
use rent_auto.Recon.Publish.Step.{live}

module _ {F : Type 0} (snap : Snapshot F) where
  -- No listing of the asset is leased.
  abbrev pub NotLeasedAsset : String → Type 0
  NotLeasedAsset a = All (λ l. is_leased l ≡ true → l.asset_id ≢ a) snap.listings

  -- An item of the snapshot whose asset is not leased wants the channel for the hash.
  pub record Wanted (h : String) (ch : Channel) : Type 0 where
    pub item : Item F
    pub from : Memᴰ item snap.items
    pub same_hash : item.hash_name ≡ h
    pub routes : Memᴰ ch (desired_channels item.route (uu_healthy_of snap))

  -- Why an action may be a publish.
  pub record PublishOk (a : Action F) : Type 0 where
    pub item : Item F
    pub ch : Channel
    pub d : Decision F
    pub shape : a ≡ publish_action ch item d
    pub from : Memᴰ item snap.items
    pub has_asset_id : item.asset_id ≢ ""
    pub not_leased_asset : NotLeasedAsset item.asset_id
    pub wanted : Wanted item.hash_name ch
    pub not_listed :
        All
          (λ l. l.hash_name ≡ item.hash_name → l.channel ≡ ch → l.asset_id ≢ item.asset_id)
          snap.listings
    pub ok : d.ok ≡ true

  -- The mismatch of the listing was observed before, for the same reason, at least the grace period ago.
  pub record Aged (now grace : ℕ) (l : Listing) (reason : String) : Type 0 where
    pub same_reason : l.mismatch_reason ≡ reason
    pub since : ℕ
    pub observed : l.mismatch_since ≡ some since
    pub old : since + grace ≤ now

  -- What is wrong with a listing: no item whose asset is not leased has its hash; or such an item has
  -- the hash and its route does not want the channel; or such an item wants it, but the listings there
  -- that are not leased are more than the distinct assets wanted there, `assets`. Only the second is no
  -- matter of waiting.
  pub data Wrong (now grace : ℕ) (l : Listing) (reason : String) : Type 0 where
    orphan :
        reason ≡ "orphan_not_routable"
        → All (λ it. leased_of snap it.asset_id ≡ false → it.hash_name ≢ l.hash_name) snap.items
        → Aged now grace l reason
        → Wrong now grace l reason
    unrouted :
        (it : Item F)
        → Memᴰ it snap.items
        → leased_of snap it.asset_id ≡ false
        → it.hash_name ≡ l.hash_name
        → contains_channel (desired_channels it.route (uu_healthy_of snap)) l.channel ≡ false
        → Wrong now grace l reason
    surplus :
        (it : Item F)
        → Memᴰ it snap.items
        → leased_of snap it.asset_id ≡ false
        → it.hash_name ≡ l.hash_name
        → contains_channel (desired_channels it.route (uu_healthy_of snap)) l.channel ≡ true
        → (assets : List String) → IsDistinct assets
        → ((x : String)
            → any (λ y. y == x) assets
              ≡ any
                  (wants (leased_of snap) (uu_healthy_of snap) l.hash_name l.channel x)
                  snap.items)
        → length assets < live (filter (is_at l.hash_name l.channel) snap.listings)
        → reason ≡ "surplus_copies"
        → Aged now grace l reason
        → Wrong now grace l reason

  -- Why an action may be a delist: a listing that is not leased, with which something is wrong.
  pub record DelistOk (now grace : ℕ) (a : Action F) : Type 0 where
    pub listing : Listing
    pub reason : String
    pub shape : a ≡ delist_action listing reason
    pub from : Memᴰ listing snap.listings
    pub not_leased_listing : listing.state ≢ "leased"
    pub wrong : Wrong now grace listing reason
