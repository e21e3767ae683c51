-- ===== src/Recon/Plan/Budget.antt =====
-- The whole plan's publishes, counted against the free slots of each hash and channel.
use rent_auto.Prelude.{
  ℕ, ◌-◌, ◌≤◌, String, Bool, not, ◌&&◌, List, [], ◌∷◌, ◌==◌, ◌≡◌, refl, length, filter, any,
  IsDistinct, arith, Bool-cases, inl, inr, Option, none, some, append-nil, subst, sym, ◌∙◌, ap,
  update_at,
}
use rent_auto.Domain.{Channel}
use rent_auto.Pricing.{Decision}
use rent_auto.Recon.{Item, Listing, Snapshot, is_leased}
use rent_auto.Recon.Want.{Want, want_of, leased_of, listed_of, uu_healthy_of}
use rent_auto.Recon.Want.Grouping.{is_at, group_listings-eq-filter}
use rent_auto.Recon.Want.Copies.{wants, copies_lem}
use rent_auto.Recon.Publish.Step.{live}
use rent_auto.Recon.Publish.Budget.{published, published-append, Room, publish_items-Room}
use rent_auto.Recon.Delist.{
  DelistState, delist_reason, is_graced, is_mature, delist_by, delist_listing, delist_listings,
}
use rent_auto.Recon.Plan.{publish_pass, plan_from}

module _ {F : Type 0} (want : Want) (uu_healthy : Bool) (now grace : ℕ) (h : String)
    (ch : Channel) where
  published-delist_by :
      (l : Listing) (st : DelistState F) (r : Option String)
      → published h ch (delist_by want uu_healthy now grace l st r).plan ≡ published h ch st.plan
  published-delist_by l st none = refl
  published-delist_by l st (some reason) =
      elim (Bool-cases (is_graced reason && not (is_mature now grace l reason))) [
        | inl g ↦ rw g (elim (Bool-cases (is_graced reason)) [ inl e ↦ rw e | inr e ↦ rw e ])
        | inr g ↦ rw (g, published-append, append-nil)
      ]

  published-delist_listing :
      (st : DelistState F) (l : Listing)
      → published h ch (delist_listing want uu_healthy now grace st l).plan ≡ published h ch st.plan
  unfolding delist_listing
  published-delist_listing st l = elim (Bool-cases (is_leased l)) [
    | inl e ↦ rw e
    | inr e ↦ rw e (
        published-delist_by l
          (record st { observations = update_at st.observations l.id (some "") })
          (delist_reason want uu_healthy (st.kept l.hash_name l.channel) l))
  ]

  published-delist_listings :
      (ls : List Listing) (st : DelistState F)
      → published h ch (delist_listings want uu_healthy now grace ls st).plan
        ≡ published h ch st.plan
  unfolding delist_listings
  published-delist_listings [] st = refl
  published-delist_listings (l ∷ ls) st =
      published-delist_listings ls (delist_listing want uu_healthy now grace st l)
      ∙ published-delist_listing st l

module _ {F S : Type 0} (decide : S → Channel → Item F → S × Option (Decision F))
    (snap : Snapshot F) where
  -- the listings of a hash on a channel that are not leased
  abbrev pub live_at : String → Channel → ℕ
  live_at h ch = live (filter (is_at h ch) snap.listings)

  listed_of_lem :
      (h : String) (ch : Channel) → listed_of snap h ch ≡ filter (is_at h ch) snap.listings
  unfolding listed_of
  listed_of_lem h ch = group_listings-eq-filter (λ _ _. []) snap.listings h ch

  publish_pass-Room :
      (mem : S) (h : String) (ch : Channel)
      → Room decide
          (want_of snap)
          (leased_of snap)
          (listed_of snap)
          h
          ch
          (publish_pass decide snap mem)
  unfolding publish_pass
  publish_pass-Room mem h ch =
      publish_items-Room decide (want_of snap) (leased_of snap) (listed_of snap) h ch snap.items
        (record { planned = λ _ _. []; plan = []; mem = mem })
        (record { synced = refl; fits = omega arith; distinct = tt })

  -- Only the publish pass publishes.
  published-plan_from :
      (now grace : ℕ) (mem : S) (h : String) (ch : Channel)
      → published h ch (plan_from decide snap now grace mem).plan
        ≡ (publish_pass decide snap mem).planned h ch
  unfolding plan_from
  published-plan_from now grace mem h ch =
      published-delist_listings (want_of snap) (uu_healthy_of snap) now grace h ch snap.listings
        (record {
          kept = λ _ _. 0;
          observations = λ _. none;
          plan = (publish_pass decide snap mem).plan;
        })
      ∙ sym (publish_pass-Room mem h ch).synced

  -- For each hash and channel, a plan publishes distinct assets, and at most as many as the distinct
  -- assets that the routes want there exceed the listings there that are not leased.
  pub plan_from-budget :
      (now grace : ℕ) (mem : S) (h : String) (ch : Channel)
      → let fresh = published h ch (plan_from decide snap now grace mem).plan in
        IsDistinct fresh
        × (wanted : List String) × IsDistinct wanted
        × ((x : String)
            → any (λ y. y == x) wanted
              ≡ any (wants (leased_of snap) (uu_healthy_of snap) h ch x) snap.items)
        × (length fresh ≤ length wanted - live_at h ch)
  unfolding want_of
  plan_from-budget now grace mem h ch =
      let room = publish_pass-Room mem h ch in
      let same = published-plan_from now grace mem h ch in
      let (wanted, distinct, covers, counts) =
        copies_lem (leased_of snap) (uu_healthy_of snap) snap.items h ch in
      (
        subst IsDistinct (sym same) room.distinct,
        wanted,
        distinct,
        covers,
        omega (arith, ap length same, room.fits, ap live (listed_of_lem h ch), counts),
      )
