-- ===== src/Recon/Plan.antt =====
-- backend/internal/recon/recon.go: `planFrom`, from the maps and the two passes.
pub mod Justified
pub mod Safety
pub mod Budget
pub mod Settled
use rent_auto.Prelude.{
  ℕ, ◌+◌, String, Bool, true, false, not, ◌&&◌, ◌||◌, Option, none, some, List, [], ◌∷◌, ◌++◌, ◌==◌,
  ltb, leb, text_append, ℤ, if◌then◌else◌, is_some, length, any, update, update₂, update_at,
}
use rent_auto.Domain.{Channel, channel_uu, channel_eco}
use rent_auto.Pricing.{Decision}
use rent_auto.Recon.{
  Item, Listing, Action, Snapshot, desired_channels, contains_channel, is_leased, publish_action,
  delist_action,
}
use rent_auto.Recon.Want.{want_of, leased_of, listed_of, uu_healthy_of}
use rent_auto.Recon.Publish.{PublishState, publish_items}
use rent_auto.Recon.Delist.{DelistState, delist_listings}

-- the plan, the observations and the state of `decide` at the end
pub record Planned (F S : Type 0) : Type 0 where
  pub plan : List (Action F)
  pub observations : ℕ → Option String
  pub mem : S

module _ {F : Type 0} where
  unfoldable pub delist_pass : Snapshot F → ℕ → ℕ → List (Action F) → DelistState F
  unfolding delist_listings want_of
  delist_pass snap now grace plan =
      delist_listings (want_of snap) (uu_healthy_of snap) now grace snap.listings
        (record { kept = λ _ _. 0; observations = λ _. none; plan = plan })

module _ {F S : Type 0} (decide : S → Channel → Item F → S × Option (Decision F)) where
  unfoldable pub publish_pass : Snapshot F → S → PublishState F S
  unfolding publish_items want_of leased_of listed_of
  publish_pass snap mem =
      publish_items decide (want_of snap) (leased_of snap) (listed_of snap) snap.items
        (record { planned = λ _ _. []; plan = []; mem = mem })

  -- `planFrom`
  unfoldable pub plan_from : Snapshot F → ℕ → ℕ → S → Planned F S
  unfolding publish_pass delist_pass
  plan_from snap now grace mem =
      let published = publish_pass snap mem in
      let shelf = delist_pass snap now grace published.plan in
      record { plan = shelf.plan; observations = shelf.observations; mem = published.mem }
