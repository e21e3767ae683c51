-- ===== src/Recon/Plan/Safety.antt =====
-- Every action of a plan is justified by the snapshot (backend/internal/recon/recon.go, `PlanFrom`).
use rent_auto.Prelude.{
  ◌<◌, ℕ, ◌+◌, ◌≤◌, String, true, false, List, [], ◌∷◌, ◌≡◌, ◌≢◌, refl, All, Memᴰ, Option, none,
  some, ◌⊎◌, arith, eq_iff, inl, inr, filter, subst, sym, &&-eq-true, Option-cases, mem_All,
}
use rent_auto.Domain.{Channel}
use rent_auto.Pricing.{Decision}
use rent_auto.Recon.{
  Item, Listing, Action, Snapshot, is_leased, publish_action, delist_action, desired_channels,
  contains_channel,
}
use rent_auto.Recon.Want.{want_of, leased_of, listed_of, uu_healthy_of, no_want, channels_of}
use rent_auto.Recon.Want.Leased.{not_leased}
use rent_auto.Recon.Want.Grouping.{is_at, group_listings-eq-filter}
use rent_auto.Recon.Want.Copies.{copies_lem}
use rent_auto.Recon.Publish.Step.{live}
use rent_auto.Recon.Want.Desired.{desired_Routes, desired_none}
use rent_auto.Recon.Publish.Step.{has_asset}
use rent_auto.Recon.Publish.Sound.{MayPublish, publish_items-All}
use rent_auto.Recon.Delist.{is_graced, is_mature, since_mature}
use rent_auto.Recon.Delist.Cause.{
  Cause, orphan_cause, unrouted_cause, surplus_cause, Cause-of, unrouted_reason,
}
use rent_auto.Recon.Delist.Reasons.{MayDelist, delist_listings-All, delist_listings_unrouted}
use rent_auto.Recon.Plan.{plan_from}
use rent_auto.Recon.Plan.Justified.{
  Wanted, PublishOk, Aged, Wrong, orphan, unrouted, surplus, DelistOk,
}

has_asset-filter :
    (h : String) (ch : Channel) (a : String) (ls : List Listing)
    → has_asset a (filter (is_at h ch) ls) ≡ false
    → All (λ l. l.hash_name ≡ h → l.channel ≡ ch → l.asset_id ≢ a) ls
has_asset-filter h ch a [] e = tt
has_asset-filter h ch a (l ∷ ls) e = (
  λ p q r. ground (arith, eq_iff h l.hash_name, eq_iff ch l.channel, eq_iff l.asset_id a),
  has_asset-filter h ch a ls (ground arith),
)

module _ {F S : Type 0} (decide : S → Channel → Item F → S × Option (Decision F))
    (snap : Snapshot F) where
  Wanted-of :
      (h : String) (ch : Channel)
      → Memᴰ ch (channels_of ((want_of snap).desired h))
      → Wanted snap h ch
  unfolding want_of
  Wanted-of h ch m = by_cases (Option-cases ((want_of snap).desired h))
    where
      by_cases :
          ((want_of snap).desired h ≡ none)
            ⊎ ((chs : List Channel) × ((want_of snap).desired h ≡ some chs))
          → Wanted snap h ch
      by_cases (inl e) = elim (subst (λ o. Memᴰ ch (channels_of o)) e m) [ ]
      by_cases (inr (chs, e)) =
          elim (desired_Routes (leased_of snap) (uu_healthy_of snap) snap.items no_want h chs e) [
            | inl p ↦ cc
            | inr r ↦ record {
              item = r.item;
              from = r.from;
              same_hash = r.same_hash;
              routes =
                  subst (λ cs. Memᴰ ch cs) (sym r.routes)
                    (subst (λ o. Memᴰ ch (channels_of o)) e m);
            }
          ]

  is_mature_lem :
      (now grace : ℕ) (l : Listing) (reason : String)
      → is_mature now grace l reason ≡ true
      → Aged snap now grace l reason
  is_mature_lem now grace l reason h =
      let (same, late) = &&-eq-true _ _ h in
      let (t, e, le) = mature l.mismatch_since late in
      record { same_reason = (eq_iff _ _).0 same; since = t; observed = e; old = le }
    where
      mature :
          (o : Option ℕ)
          → since_mature now grace o ≡ true
          → (since : ℕ) × (o ≡ some since) × (since + grace ≤ now)
      mature none e = cc
      mature (some t) e = (t, refl, ground arith)

  publish_ok :
      (it : Item F) (ch : Channel) (d : Decision F)
      → MayPublish decide (want_of snap) (leased_of snap) (listed_of snap) snap.items it ch d
      → PublishOk snap (publish_action ch it d)
  unfolding leased_of listed_of
  publish_ok it ch d g = record {
    item = it;
    ch = ch;
    d = d;
    shape = refl;
    from = g.from;
    has_asset_id = g.has_asset_id;
    not_leased_asset = not_leased (λ _. false) snap.listings it.asset_id g.has_asset_id g.free;
    wanted = Wanted-of it.hash_name ch g.desired;
    not_listed =
        has_asset-filter it.hash_name ch it.asset_id snap.listings
          (rw group_listings-eq-filter at g.not_listed);
    ok = g.ok;
  }

  Wrong-of :
      (now grace kept : ℕ) (l : Listing) (reason : String)
      → kept < live (filter (is_at l.hash_name l.channel) snap.listings)
      → (is_graced reason ≡ true → Aged snap now grace l reason)
      → Cause (want_of snap) kept l reason
      → Wrong snap now grace l reason
  unfolding want_of
  Wrong-of now grace kept l reason more waits (orphan_cause none_wanted e) =
      orphan e
        (desired_none (leased_of snap) (uu_healthy_of snap) snap.items no_want l.hash_name
          none_wanted)
        (waits (rw e refl))
  Wrong-of now grace kept l reason more waits (surplus_cause chs wanted present e le) =
      let (assets, distinct, covers, counts) =
        copies_lem (leased_of snap) (uu_healthy_of snap) snap.items l.hash_name l.channel in
      elim (desired_Routes (leased_of snap) (uu_healthy_of snap) snap.items no_want l.hash_name chs
        wanted) [
          | inl p ↦ cc
          | inr r ↦
              surplus r.item r.from r.not_leased r.same_hash
                (subst (λ cs. contains_channel cs l.channel ≡ true) (sym r.routes) present) assets
                distinct covers (omega (arith, counts, le, more)) e (waits (rw e refl))
        ]
  Wrong-of now grace kept l reason more waits (unrouted_cause chs wanted absent g) =
      elim (desired_Routes (leased_of snap) (uu_healthy_of snap) snap.items no_want l.hash_name chs
        wanted) [
          | inl p ↦ cc
          | inr r ↦
              unrouted r.item r.from r.not_leased r.same_hash
                (subst (λ cs. contains_channel cs l.channel ≡ false) (sym r.routes) absent)
        ]

  delist_ok :
      (now grace : ℕ) (l : Listing) (reason : String)
      → MayDelist (want_of snap) (uu_healthy_of snap) now grace snap.listings l reason
      → DelistOk snap now grace (delist_action l reason)
  delist_ok now grace l reason g = record {
    listing = l;
    reason = reason;
    shape = refl;
    from = g.from;
    not_leased_listing = ground (arith, g.not_leased, eq_iff l.state "leased");
    wrong =
        Wrong-of now grace g.kept l reason g.more (λ e. is_mature_lem now grace l reason (g.aged e))
          (Cause-of (want_of snap) (uu_healthy_of snap) g.kept l reason g.reasoned);
  }

  -- Every action of a plan is justified by the snapshot: a publish by an item whose asset is not
  -- leased and not yet listed there, on a channel that a route wants, with an accepted decision; a
  -- delist by a listing that is not leased, where no item that is not leased has the hash and the
  -- mismatch has been observed for the grace period; or such an item has the hash and does not want the
  -- channel; or such an item wants it, the listings there that are not leased are more than the distinct
  -- assets that such items want there, and the mismatch has been observed for the grace period.
  pub plan_from-IsJustified :
      (now grace : ℕ) (mem : S)
      → All
          (λ a. PublishOk snap a ⊎ DelistOk snap now grace a)
          (plan_from decide snap now grace mem).plan
  unfolding plan_from
  plan_from-IsJustified now grace mem =
      let P : Action F → Type 0 = λ a. PublishOk snap a ⊎ DelistOk snap now grace a in
      delist_listings-All (want_of snap) (uu_healthy_of snap) now grace P snap.listings
        snap.listings _ (λ l m. m) (λ h ch. omega arith)
        (λ l reason g. inr (delist_ok now grace l reason g))
        (publish_items-All decide (want_of snap) (leased_of snap) (listed_of snap) P snap.items
          snap.items _ (λ it m. m) (λ it ch d g. inl (publish_ok it ch d g)) tt)

  -- A listing that is not leased, whose hash some item that is not leased has while no such item's
  -- route wants its channel, is taken down in this very plan.
  pub plan_from-unrouted :
      (now grace : ℕ) (mem : S) (l : Listing) (it : Item F)
      → Memᴰ l snap.listings
      → is_leased l ≡ false
      → Memᴰ it snap.items
      → it.hash_name ≡ l.hash_name
      → leased_of snap it.asset_id ≡ false
      → All
          (λ x.
            leased_of snap x.asset_id ≡ false
            → x.hash_name ≡ l.hash_name
            → contains_channel (desired_channels x.route (uu_healthy_of snap)) l.channel ≡ false)
          snap.items
      → Memᴰ
          (delist_action l (unrouted_reason (want_of snap) (uu_healthy_of snap) l))
          (plan_from decide snap now grace mem).plan
  unfolding plan_from want_of
  plan_from-unrouted now grace mem l it m e mi same free unwanted =
      elim (Option-cases ((want_of snap).desired l.hash_name)) [
        | inl d ↦ absurd (
            mem_All (λ x. leased_of snap x.asset_id ≡ false → x.hash_name ≢ l.hash_name) snap.items
              (desired_none (leased_of snap) (uu_healthy_of snap) snap.items no_want l.hash_name d)
              mi free same)
        | inr (chs, d) ↦
            elim (desired_Routes (leased_of snap) (uu_healthy_of snap) snap.items no_want
              l.hash_name chs d) [
                | inl p ↦ cc
                | inr r ↦
                    delist_listings_unrouted (want_of snap) (uu_healthy_of snap) now grace
                      snap.listings l _ chs m e d
                      (subst (λ cs. contains_channel cs l.channel ≡ false) r.routes
                        (mem_All _ snap.items unwanted r.from r.not_leased r.same_hash))
              ]
      ]
