-- ===== src/Recon/Publish/Sound.antt =====
-- A predicate that holds of all that the guards of the publish pass let through holds of its plan.
use rent_auto.Prelude.{
  String, Bool, true, false, ◌||◌, List, [], ◌∷◌, ◌==◌, ◌≡◌, ◌≢◌, refl, All, All-append, Memᴰ,
  Option, arith, eq_iff, Bool-cases, inl, inr,
}
use rent_auto.Domain.{Channel}
use rent_auto.Pricing.{Decision}
use rent_auto.Recon.{Item, Listing, Action, publish_action}
use rent_auto.Recon.Want.{Want, channels_of}
use rent_auto.Recon.Publish.{PublishState, publish_channel, publish_channels, publish_items}
use rent_auto.Recon.Publish.Step.{has_asset, publish_channel_Outcome}

module _ {F S : Type 0} (decide : S → Channel → Item F → S × Option (Decision F)) (want : Want)
    (leased : String → Bool) (listed : String → Channel → List Listing) where
  -- What the guards of the whole pass establish of an item, a channel and a decision.
  pub record MayPublish (items : List (Item F)) (it : Item F) (ch : Channel) (d : Decision F)
      : Type 0 where
    pub from : Memᴰ it items
    pub has_asset_id : it.asset_id ≢ ""
    pub free : leased it.asset_id ≡ false
    pub desired : Memᴰ ch (channels_of (want.desired it.hash_name))
    pub not_listed : has_asset it.asset_id (listed it.hash_name ch) ≡ false
    pub ok : d.ok ≡ true

  module _ (P : Action F → Type 0) where
    publish_channel-All :
        (it : Item F) (st : PublishState F S) (ch : Channel)
        → ((d : Decision F)
            → d.ok ≡ true
            → has_asset it.asset_id (listed it.hash_name ch) ≡ false
            → P (publish_action ch it d))
        → All P st.plan
        → All P (publish_channel decide want leased listed it st ch).plan
    publish_channel-All it st ch f ps =
        elim (publish_channel_Outcome decide want leased listed it st ch) [
          | inl (m, e) ↦ rw e ps
          | inr (m, d, g, e) ↦ rw e (All-append P st.plan _ ps (f d g.ok g.not_listed, tt))
        ]

    publish_channels-All :
        (it : Item F) (chs : List Channel) (st : PublishState F S)
        → ((ch : Channel) (d : Decision F)
            → Memᴰ ch chs
            → d.ok ≡ true
            → has_asset it.asset_id (listed it.hash_name ch) ≡ false
            → P (publish_action ch it d))
        → All P st.plan
        → All P (publish_channels decide want leased listed it chs st).plan
    unfolding publish_channels
    publish_channels-All it [] st f ps = ps
    publish_channels-All it (ch ∷ chs) st f ps =
        publish_channels-All it chs _ (λ c d m. f c d (Memᴰ.tail m))
          (publish_channel-All it st ch (λ d. f ch d (Memᴰ.head refl)) ps)

    pub publish_items-All :
        (items its : List (Item F)) (st : PublishState F S)
        → ((it : Item F) → Memᴰ it its → Memᴰ it items)
        → ((it : Item F) (ch : Channel) (d : Decision F)
            → MayPublish items it ch d
            → P (publish_action ch it d))
        → All P st.plan
        → All P (publish_items decide want leased listed its st).plan
    unfolding publish_items
    publish_items-All items [] st sub f ps = ps
    publish_items-All items (it ∷ its) st sub f ps =
        publish_items-All items its _ (λ x m. sub x (Memᴰ.tail m)) f
          (elim (Bool-cases (it.asset_id == "" || leased it.asset_id)) [
            | inl e ↦ rw e ps
            | inr e ↦ rw e (
                publish_channels-All it (channels_of (want.desired it.hash_name)) st
                  (λ ch d m ok n. f it ch d (record {
                    from = sub it (Memᴰ.head refl);
                    has_asset_id = ground (arith, eq_iff it.asset_id "");
                    free = ground arith;
                    desired = m;
                    not_listed = n;
                    ok = ok;
                  }))
                  ps)
          ])
