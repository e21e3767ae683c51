-- ===== src/Recon/Want.antt =====
-- backend/internal/recon/recon.go: the maps that `planFrom` builds before its two passes.
pub mod Leased
pub mod Grouping
pub mod Desired
pub mod Copies
use rent_auto.Prelude.{
  ℕ, ◌+◌, String, Bool, true, false, not, ◌&&◌, ◌||◌, Option, none, some, List, [], ◌∷◌, ◌++◌, ◌==◌,
  ltb, leb, text_append, ℤ, if◌then◌else◌, is_some, length, any, update, update₂, update_at,
}
use rent_auto.Domain.{Channel, channel_uu, channel_eco}
use rent_auto.Pricing.{Decision}
use rent_auto.Recon.{
  Item, Listing, Action, Snapshot, desired_channels, contains_channel, is_leased, publish_action,
  delist_action,
}

-- the first loop of `planFrom`
unfoldable pub mark_leased : (String → Bool) → List Listing → String → Bool
mark_leased m [] = m
mark_leased m (l ∷ ls) =
    mark_leased (if is_leased l && not (l.asset_id == "") then update m l.asset_id true else m) ls

-- wantCopies, distinct, desiredByHash (`none` is a hash that is not in the map) and routeByHash
pub record Want : Type 0 where
  pub copies : String → Channel → ℕ
  pub distinct : String → Channel → String → Bool
  pub desired : String → Option (List Channel)
  pub route : String → String

abbrev pub no_want : Want
no_want = record {
  copies = λ _ _. 0;
  distinct = λ _ _ _. false;
  desired = λ _. none;
  route = λ _. "";
}

-- the body of the loop over the desired channels of an item
abbrev pub want_channel : String → String → Channel → Want → Want
want_channel h a ch w = if w.distinct h ch a then w else record w {
  distinct = update₂ w.distinct h ch (update (w.distinct h ch) a true);
  copies = update₂ w.copies h ch (w.copies h ch + 1);
}

unfoldable pub want_channels : String → String → List Channel → Want → Want
want_channels h a [] w = w
want_channels h a (ch ∷ chs) w = want_channels h a chs (want_channel h a ch w)

-- `listedByHash[k] = append(listedByHash[k], l)`
unfoldable pub group_listings :
    (String → Channel → List Listing) → List Listing → String → Channel → List Listing
group_listings m [] = m
group_listings m (l ∷ ls) =
    group_listings (update₂ m l.hash_name l.channel (m l.hash_name l.channel ++ (l ∷ []))) ls

-- `range desiredByHash[h]`: no iteration where the hash is not in the map
abbrev pub channels_of : Option (List Channel) → List Channel
channels_of none = []
channels_of (some chs) = chs

module _ {F : Type 0} where
  unfoldable pub want_item : (String → Bool) → Bool → Want → Item F → Want
  unfolding want_channels desired_channels
  want_item leased uu_healthy w it =
      if leased it.asset_id
      then w
      else let chs = desired_channels it.route uu_healthy in
        want_channels it.hash_name it.asset_id chs (record w {
          desired = update w.desired it.hash_name (some chs);
          route = update w.route it.hash_name it.route;
        })

  unfoldable pub want_items : (String → Bool) → Bool → List (Item F) → Want → Want
  unfolding want_item
  want_items leased uu_healthy [] w = w
  want_items leased uu_healthy (it ∷ its) w =
      want_items leased uu_healthy its (want_item leased uu_healthy w it)

-- The maps of `planFrom`, from a snapshot.
module _ {F : Type 0} (snap : Snapshot F) where
  abbrev pub uu_healthy_of : Bool
  uu_healthy_of = snap.health "uu" == "ok"

  unfoldable pub leased_of : String → Bool
  unfolding mark_leased
  leased_of = mark_leased (λ _. false) snap.listings

  unfoldable pub want_of : Want
  unfolding want_items leased_of
  want_of = want_items leased_of uu_healthy_of snap.items no_want

  unfoldable pub listed_of : String → Channel → List Listing
  unfolding group_listings
  listed_of = group_listings (λ _ _. []) snap.listings
