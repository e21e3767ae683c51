-- ===== src/Recon/Publish/Budget.antt =====
-- The budget of the publish pass: for each hash and channel, what is planned are distinct assets, as
-- many as there are free slots at most.
use rent_auto.Prelude.{
  ◌-◌, ◌≤◌, String, Bool, ◌&&◌, ◌||◌, List, [], ◌∷◌, ◌++◌, ◌==◌, ◌≡◌, refl, if◌then◌else◌, length,
  length-append, Option, arith, eq_iff, Bool-cases, inl, inr, append-nil, IsDistinct,
  IsDistinct-snoc,
}
use rent_auto.Domain.{Channel}
use rent_auto.Pricing.{Decision}
use rent_auto.Recon.{Item, Listing, Action, publish_action}
use rent_auto.Recon.Want.{Want, channels_of}
use rent_auto.Recon.Publish.{PublishState, publish_channel, publish_channels, publish_items}
use rent_auto.Recon.Publish.Step.{live, published_state, Guards, publish_channel_Outcome}

module _ {F : Type 0} where
  abbrev pub is_publish_at : String → Channel → Action F → Bool
  is_publish_at h ch a = a.kind == "publish" && (h == a.hash_name && ch == a.channel)

  -- The assets that a plan publishes for a hash on a channel, in order.
  abbrev pub published : String → Channel → List (Action F) → List String
  published h ch [] = []
  published h ch (a ∷ plan) =
      if is_publish_at h ch a then a.asset_id ∷ published h ch plan else published h ch plan

  pub published-append :
      (h : String) (ch : Channel) (xs ys : List (Action F))
      → published h ch (xs ++ ys) ≡ published h ch xs ++ published h ch ys
  published-append h ch [] ys = refl
  published-append h ch (a ∷ xs) ys = ground (arith, published-append h ch xs ys)

module _ {F S : Type 0} (decide : S → Channel → Item F → S × Option (Decision F)) (want : Want)
    (leased : String → Bool) (listed : String → Channel → List Listing) where
  -- at one hash and channel
  pub record Room (h : String) (ch : Channel) (st : PublishState F S) : Type 0 where
    pub synced : st.planned h ch ≡ published h ch st.plan
    pub fits : length (st.planned h ch) ≤ want.copies h ch - live (listed h ch)
    pub distinct : IsDistinct (st.planned h ch)

  published_state-Room :
      (h : String) (c : Channel) (it : Item F) (ch : Channel) (st : PublishState F S) (m : S)
      (d : Decision F)
      → Guards decide want leased listed it ch st d
      → Room h c st
      → Room h c (published_state decide want leased listed it ch st m d)
  published_state-Room h c it ch st m d g r = record {
    synced = ground (
      arith,
      published-append h c st.plan (publish_action ch it d ∷ []),
      eq_iff h it.hash_name,
      eq_iff c ch,
      append-nil (published h c st.plan),
    );
    fits = ground (
      arith,
      eq_iff h it.hash_name,
      eq_iff c ch,
      length-append (st.planned h c) (it.asset_id ∷ []),
    );
    distinct = ground (
      arith,
      eq_iff h it.hash_name,
      eq_iff c ch,
      IsDistinct-snoc it.asset_id (st.planned h c) r.distinct,
    );
  }

  publish_channel-Room :
      (h : String) (c : Channel) (it : Item F) (st : PublishState F S) (ch : Channel)
      → Room h c st
      → Room h c (publish_channel decide want leased listed it st ch)
  publish_channel-Room h c it st ch r =
      elim (publish_channel_Outcome decide want leased listed it st ch) [
        | inl (m, e) ↦ rw e (record { synced = r.synced; fits = r.fits; distinct = r.distinct })
        | inr (m, d, g, e) ↦ rw e (published_state-Room h c it ch st m d g r)
      ]

  publish_channels-Room :
      (h : String) (c : Channel) (it : Item F) (chs : List Channel) (st : PublishState F S)
      → Room h c st
      → Room h c (publish_channels decide want leased listed it chs st)
  unfolding publish_channels
  publish_channels-Room h c it [] st r = r
  publish_channels-Room h c it (ch ∷ chs) st r =
      publish_channels-Room h c it chs _ (publish_channel-Room h c it st ch r)

  pub publish_items-Room :
      (h : String) (c : Channel) (its : List (Item F)) (st : PublishState F S)
      → Room h c st
      → Room h c (publish_items decide want leased listed its st)
  unfolding publish_items
  publish_items-Room h c [] st r = r
  publish_items-Room h c (it ∷ its) st r =
      publish_items-Room h c its _ (elim (Bool-cases (it.asset_id == "" || leased it.asset_id)) [
        | inl e ↦ rw e r
        | inr e ↦ rw e (publish_channels-Room h c it (channels_of (want.desired it.hash_name)) st r)
      ])
