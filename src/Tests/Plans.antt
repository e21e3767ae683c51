-- ===== src/Tests/Plans.antt =====
-- Plans over small shelves: one asset to publish, one listing on the wrong channel, one that is right.
use rent_auto.Prelude.{
  ℕ, ◌-◌, ◌≤◌, String, true, false, Option, none, some, List, [], ◌∷◌, ◌==◌, ◌≡◌, refl, arith, ◌⊎◌,
  pos, All, Memᴰ, any, length, eq_iff, IsDistinct, filter,
}
use rent_auto.Domain.{Channel, channel_uu, channel_eco}
use rent_auto.Pricing.{Decision}
use rent_auto.Recon.{Item, Listing, Snapshot, desired_channels, contains_channel, delist_action}
use rent_auto.Recon.Want.{
  want_of, leased_of, uu_healthy_of, listed_of, want_items, want_item, want_channels, mark_leased,
  group_listings,
}
use rent_auto.Recon.Want.Grouping.{is_at}
use rent_auto.Recon.Publish.Step.{live}
use rent_auto.Recon.Want.Copies.{wants}
use rent_auto.Recon.Delist.Cause.{unrouted_reason}
use rent_auto.Recon.Plan.{plan_from}
use rent_auto.Recon.Plan.Justified.{PublishOk, DelistOk}
use rent_auto.Recon.Plan.Safety.{plan_from-IsJustified, plan_from-unrouted}
use rent_auto.Recon.Plan.Budget.{live_at, plan_from-budget}
use rent_auto.Recon.Publish.Budget.{published}
use rent_auto.Recon.Plan.Settled.{IsPlaced, IsRouted, plan_from_settled}

abbrev agreed_terms : Decision ℕ
agreed_terms = record {
  ok = true;
  skip_reason = "";
  reasons = [];
  rent = 250;
  long = 230;
  max_days = pos 30;
  deposit = 90000;
}

-- counts the decisions that are asked for
abbrev always : ℕ → Channel → Item ℕ → ℕ × Option (Decision ℕ)
always n ch it = (n, some agreed_terms)

abbrev knife : Item ℕ
knife = record { asset_id = "a1"; hash_name = "knife"; v = some 1000; route = "uu_only" }

abbrev on_shelf : Channel → String → Listing
on_shelf ch asset = record {
  id = 7;
  channel = ch;
  hash_name = "knife";
  goods_ref = "g7";
  asset_id = asset;
  state = "active";
  mismatch_since = none;
  mismatch_reason = "";
}

abbrev uu_up : String → String
uu_up ch = "ok"

-- the knife is on ECO, and its route wants UU
abbrev misplaced : Snapshot ℕ
misplaced = record { items = knife ∷ []; listings = on_shelf channel_eco "a1" ∷ []; health = uu_up }

-- the knife is where its route wants it
abbrev placed : Snapshot ℕ
placed = record { items = knife ∷ []; listings = on_shelf channel_uu "a1" ∷ []; health = uu_up }

plan_from-IsJustified_example :
    All
      (λ a. PublishOk misplaced a ⊎ DelistOk misplaced 100 10 a)
      (plan_from always misplaced 100 10 0).plan
plan_from-IsJustified_example = plan_from-IsJustified always misplaced 100 10 0

plan_from-budget_example :
    let fresh = published "knife" channel_uu (plan_from always misplaced 100 10 0).plan in
    IsDistinct fresh
    × (wanted : List String) × IsDistinct wanted
    × ((x : String)
        → any (λ y. y == x) wanted
          ≡ any
              (wants (leased_of misplaced) (uu_healthy_of misplaced) "knife" channel_uu x)
              misplaced.items)
    × (length fresh ≤ length wanted - live_at always misplaced "knife" channel_uu)
plan_from-budget_example = plan_from-budget always misplaced 100 10 0 "knife" channel_uu

only_uu :
    All
      (λ x.
        leased_of misplaced x.asset_id ≡ false
        → x.hash_name ≡ "knife"
        → contains_channel (desired_channels x.route (uu_healthy_of misplaced)) channel_eco ≡ false)
      misplaced.items
unfolding contains_channel desired_channels
only_uu = ((λ _ _. refl), tt)

plan_from-unrouted_example :
    Memᴰ
      (delist_action
        (on_shelf channel_eco "a1")
        (unrouted_reason (want_of misplaced) (uu_healthy_of misplaced) (on_shelf channel_eco "a1")))
      (plan_from always misplaced 100 10 0).plan
unfolding leased_of
plan_from-unrouted_example =
    plan_from-unrouted always misplaced 100 10 0 (on_shelf channel_eco "a1") knife (Memᴰ.head refl)
      refl (Memᴰ.head refl) refl refl only_uu

placed_items :
    All (IsPlaced always (want_of placed) (leased_of placed) (listed_of placed)) placed.items
unfolding want_of leased_of listed_of want_items want_item want_channels mark_leased group_listings
    desired_channels
placed_items = ((λ _. (refl, tt)), tt)

IsRouted-shelf : All (IsRouted (want_of placed) (uu_healthy_of placed)) placed.listings
unfolding want_of leased_of want_items want_item want_channels mark_leased desired_channels
    contains_channel
IsRouted-shelf = ((λ _. refl), tt)

within :
    (h : String) (ch : Channel)
    → live (filter (is_at h ch) placed.listings) ≤ (want_of placed).copies h ch
unfolding want_of leased_of want_items want_item want_channels mark_leased desired_channels
within h ch = ground (arith, eq_iff h "knife", eq_iff ch "uu", eq_iff "knife" h, eq_iff "uu" ch)

plan_from_settled_example :
    ((plan_from always placed 100 10 0).plan ≡ []) × ((plan_from always placed 100 10 0).mem ≡ 0)
plan_from_settled_example =
    plan_from_settled always placed 100 10 0 placed_items IsRouted-shelf within
