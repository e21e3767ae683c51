-- ===== src/Recon.antt =====
-- backend/internal/recon/recon.go: the planner's inputs and `PlanFrom`, the pure difference between
-- the desired and the actual shelf. Times are nanoseconds, maps are functions (a key that is not set
-- gives the zero value), and `decide` is any function with a state of its own, since the closure that
-- `Plan` passes collects errors.
pub mod Want
pub mod Publish
pub mod Delist
pub mod Plan
pub mod Execute
use rent_auto.Prelude.{
  ℕ, ◌+◌, String, Bool, true, false, not, ◌&&◌, ◌||◌, Option, none, some, List, [], ◌∷◌, ◌++◌, ◌==◌,
  ltb, leb, text_append, ℤ, if◌then◌else◌, is_some, length, any, update, update₂, update_at,
}
use rent_auto.Pricing.{Decision}
use rent_auto.Domain.{Channel, channel_uu, channel_eco}

-- store.RoutableItem; the value anchor `V` is any type `F`
pub record Item (F : Type 0) : Type 0 where
  pub asset_id : String
  pub hash_name : String
  pub v : Option F
  pub route : String

-- store.ActiveListing, without `SyncedAt`, which nothing here reads
pub record Listing : Type 0 where
  pub id : ℕ
  pub channel : Channel
  pub hash_name : String
  pub goods_ref : String
  pub asset_id : String
  pub state : String
  pub mismatch_since : Option ℕ
  pub mismatch_reason : String

pub record Action (F : Type 0) : Type 0 where
  pub kind : String
  pub channel : Channel
  pub asset_id : String
  pub goods_ref : String
  pub listing_id : ℕ
  pub hash_name : String
  pub reason : String
  pub state : String
  pub decision : Option (Decision F)

pub record Snapshot (F : Type 0) : Type 0 where
  pub items : List (Item F)
  pub listings : List Listing
  pub health : String → String

unfoldable pub desired_channels : String → Bool → List Channel
desired_channels route uu_healthy =
    if route == "uu_only"
    then channel_uu ∷ []
    else if route == "eco_only"
    then channel_eco ∷ []
    else if route == "uu_primary_eco_fallback"
    then if uu_healthy then channel_uu ∷ [] else channel_eco ∷ []
    else channel_uu ∷ channel_eco ∷ []

unfoldable pub contains_channel : List Channel → Channel → Bool
contains_channel [] c = false
contains_channel (x ∷ list) c = if x == c then true else contains_channel list c

abbrev pub is_leased : Listing → Bool
is_leased l = l.state == "leased"

module _ {F : Type 0} where
  abbrev pub publish_action : Channel → Item F → Decision F → Action F
  publish_action ch it d = record {
    kind = "publish";
    channel = ch;
    asset_id = it.asset_id;
    goods_ref = "";
    listing_id = 0;
    hash_name = it.hash_name;
    reason = text_append "route:" it.route;
    state = "";
    decision = some d;
  }

  abbrev pub delist_action : Listing → String → Action F
  delist_action l reason = record {
    kind = "delist";
    channel = l.channel;
    asset_id = "";
    goods_ref = l.goods_ref;
    listing_id = l.id;
    hash_name = l.hash_name;
    reason = reason;
    state = l.state;
    decision = none;
  }
