-- ===== src/Recon/Want/Leased.antt =====
-- The set of leased assets (backend/internal/recon/recon.go, first loop of `planFrom`).
use rent_auto.Prelude.{
  String, Bool, true, false, not, ◌&&◌, List, [], ◌∷◌, ◌==◌, ◌≡◌, ◌≢◌, if◌then◌else◌, update, All,
  arith, eq_iff,
}
use rent_auto.Recon.{Listing, is_leased}
use rent_auto.Recon.Want.{mark_leased}

abbrev pub mark : (String → Bool) → Listing → String → Bool
mark m l = if is_leased l && not (l.asset_id == "") then update m l.asset_id true else m

mark_mono : (m : String → Bool) (l : Listing) (a : String) → m a ≡ true → mark m l a ≡ true
mark_mono m l a h = ground arith

mark_new :
    (m : String → Bool) (l : Listing) (a : String)
    → a ≢ ""
    → is_leased l ≡ true
    → l.asset_id ≡ a
    → mark m l a ≡ true
mark_new m l a n h e = ground (arith, eq_iff l.asset_id "", eq_iff a l.asset_id)

mark_leased_mono :
    (m : String → Bool) (ls : List Listing) (a : String) → m a ≡ true → mark_leased m ls a ≡ true
unfolding mark_leased
mark_leased_mono m [] a h = h
mark_leased_mono m (l ∷ ls) a h = mark_leased_mono (mark m l) ls a (mark_mono m l a h)

-- An asset that is not marked has no leased listing.
pub not_leased :
    (m : String → Bool) (ls : List Listing) (a : String)
    → a ≢ ""
    → mark_leased m ls a ≡ false
    → All (λ l. is_leased l ≡ true → l.asset_id ≢ a) ls
unfolding mark_leased
not_leased m [] a n h = tt
not_leased m (l ∷ ls) a n h = (
  λ leased e. cc (mark_leased_mono (mark m l) ls a (mark_new m l a n leased e), h),
  not_leased (mark m l) ls a n h,
)
