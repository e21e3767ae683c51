-- ===== src/Recon/Publish.antt =====
-- backend/internal/recon/recon.go: the publish pass of `planFrom`.
pub mod Step
pub mod Budget
pub mod Sound
use rent_auto.Prelude.{
  ℕ, ◌+◌, String, Bool, true, false, not, ◌&&◌, ◌||◌, Option, none, some, List, [], ◌∷◌, ◌++◌, ◌==◌,
  ltb, leb, text_append, ℤ, if◌then◌else◌, is_some, length, any, update, update₂, update_at,
}
use rent_auto.Domain.{Channel, channel_uu, channel_eco}
use rent_auto.Pricing.{Decision}
use rent_auto.Recon.{
  Item, Listing, Action, Snapshot, desired_channels, contains_channel, is_leased, publish_action,
  delist_action,
}
use rent_auto.Recon.Want.{Want, channels_of}

-- the loop over `existing`: `assetListed` and `live`
unfoldable pub scan : String → List Listing → Bool × ℕ → Bool × ℕ
scan asset [] r = r
scan asset (l ∷ ls) (listed, live) =
    scan asset ls
      (if l.asset_id == asset then true else listed, if is_leased l then live else live + 1)

-- `planned`, the plan so far, and the state of `decide`
pub record PublishState (F S : Type 0) : Type 0 where
  pub planned : String → Channel → List String
  pub plan : List (Action F)
  pub mem : S

module _ {F S : Type 0} where
  -- the end of the inner loop's body, with what `decide` returned
  abbrev pub commit : Item F → Channel → PublishState F S → Option (Decision F) → PublishState F S
  commit it ch st none = st
  commit it ch st (some d) =
      if d.ok
      then record st {
        planned =
            update₂ st.planned it.hash_name ch (st.planned it.hash_name ch ++ (it.asset_id ∷ []));
        plan = st.plan ++ (publish_action ch it d ∷ []);
      }
      else st

-- The publish pass, over the maps that were built first.
module _ {F S : Type 0} (decide : S → Channel → Item F → S × Option (Decision F)) (want : Want)
    (leased : String → Bool) (listed : String → Channel → List Listing) where
  -- the body of the inner loop; the assets of `planned[k]` are distinct, so its length is `len`
  unfoldable pub publish_channel : Item F → PublishState F S → Channel → PublishState F S
  unfolding scan
  publish_channel it st ch =
      let mine = st.planned it.hash_name ch in
      if any (λ a. a == it.asset_id) mine
      then st
      else let (asset_listed, live) = scan it.asset_id (listed it.hash_name ch) (false, 0) in
        if asset_listed || leb (want.copies it.hash_name ch) (live + length mine)
        then st
        else let (mem', d) = decide st.mem ch it in commit it ch (record st { mem = mem' }) d

  unfoldable pub publish_channels : Item F → List Channel → PublishState F S → PublishState F S
  unfolding publish_channel
  publish_channels it [] st = st
  publish_channels it (ch ∷ chs) st = publish_channels it chs (publish_channel it st ch)

  unfoldable pub publish_items : List (Item F) → PublishState F S → PublishState F S
  unfolding publish_channels
  publish_items [] st = st
  publish_items (it ∷ its) st = publish_items its (
      if it.asset_id == "" || leased it.asset_id
      then st
      else publish_channels it (channels_of (want.desired it.hash_name)) st)
