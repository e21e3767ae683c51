-- ===== src/Recon/Want/Grouping.antt =====
-- `listedByHash` holds just the listings of each hash and channel, in order.
use rent_auto.Prelude.{
  String, Bool, ◌&&◌, List, [], ◌∷◌, ◌++◌, ◌==◌, ◌≡◌, update₂, filter, arith, eq_iff, append_assoc,
  append-nil, sym,
}
use rent_auto.Domain.{Channel}
use rent_auto.Recon.{Listing}
use rent_auto.Recon.Want.{group_listings}

abbrev pub is_at : String → Channel → Listing → Bool
is_at h ch l = h == l.hash_name && ch == l.channel

pub group_listings-eq-filter :
    (m : String → Channel → List Listing) (ls : List Listing) (h : String) (ch : Channel)
    → group_listings m ls h ch ≡ m h ch ++ filter (is_at h ch) ls
unfolding group_listings
group_listings-eq-filter m [] h ch = sym (append-nil _)
group_listings-eq-filter m (l ∷ ls) h ch =
    let m' = update₂ m l.hash_name l.channel (m l.hash_name l.channel ++ (l ∷ [])) in
    ground (
      arith,
      group_listings-eq-filter m' ls h ch,
      append_assoc (m h ch) (l ∷ []) (filter (is_at h ch) ls),
      eq_iff h l.hash_name,
      eq_iff ch l.channel,
    )
