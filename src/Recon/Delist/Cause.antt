-- ===== src/Recon/Delist/Cause.antt =====
-- What each reason of the delist pass says about its listing.
use rent_auto.Prelude.{
  ◌≤◌, arith, String, Bool, true, false, not, ◌&&◌, List, ◌==◌, ◌≡◌, refl, none, some, Option-cases,
  sym, ℕ, leb, Bool-cases, inl, inr, if◌then◌else◌,
}
use rent_auto.Domain.{Channel, channel_uu}
use rent_auto.Recon.{Listing, contains_channel}
use rent_auto.Recon.Want.{Want}
use rent_auto.Recon.Delist.{delist_reason, is_graced}

-- The reason of a listing on a channel that its hash does not want: one that waits for no grace.
abbrev pub unrouted_reason : Want → Bool → Listing → String
unrouted_reason want uu_healthy l =
    if l.channel == channel_uu
      && not uu_healthy
      && (want.route l.hash_name == "uu_primary_eco_fallback")
    then "uu_unhealthy_failover"
    else "not_routed"

-- Why a listing is given the reason `reason`, in terms of what the snapshot wants.
pub data Cause (want : Want) (kept : ℕ) (l : Listing) (reason : String) : Type 0 where
  orphan_cause :
      want.desired l.hash_name ≡ none → reason ≡ "orphan_not_routable" → Cause want kept l reason
  unrouted_cause :
      (chs : List Channel)
      → want.desired l.hash_name ≡ some chs
      → contains_channel chs l.channel ≡ false
      → is_graced reason ≡ false
      → Cause want kept l reason
  surplus_cause :
      (chs : List Channel)
      → want.desired l.hash_name ≡ some chs
      → contains_channel chs l.channel ≡ true
      → reason ≡ "surplus_copies"
      → want.copies l.hash_name l.channel ≤ kept
      → Cause want kept l reason

ungraced :
    (want : Want) (uu_healthy : Bool) (l : Listing)
    → is_graced (unrouted_reason want uu_healthy l) ≡ false
ungraced want uu_healthy l =
    elim (Bool-cases (
      l.channel == channel_uu
      && not uu_healthy
      && (want.route l.hash_name == "uu_primary_eco_fallback"))) [
        | inl b ↦ rw b refl
        | inr b ↦ rw b refl
      ]

of_surplus :
    (copies kept : ℕ) (reason : String)
    → (if leb copies kept then some "surplus_copies" else none) ≡ some reason
    → (reason ≡ "surplus_copies") × (copies ≤ kept)
of_surplus copies kept reason q = elim (Bool-cases (leb copies kept)) [
  | inl le ↦
      let q' : some "surplus_copies" ≡ some reason = (rw le at q) in
      let e : "surplus_copies" ≡ reason = cc in (sym e, ground (arith, le))
  | inr gt ↦ cc (rw gt at q)
]

pub Cause-of :
    (want : Want) (uu_healthy : Bool) (kept : ℕ) (l : Listing) (reason : String)
    → delist_reason want uu_healthy kept l ≡ some reason
    → Cause want kept l reason
unfolding delist_reason
Cause-of want uu_healthy kept l reason h = elim (Option-cases (want.desired l.hash_name)) [
  | inl none_wanted ↦
      let q : some "orphan_not_routable" ≡ some reason =
        (simp (none_wanted, contains_channel) at h) in
      orphan_cause none_wanted (let e : "orphan_not_routable" ≡ reason = cc in sym e)
  | inr (chs, wanted) ↦ elim (Bool-cases (contains_channel chs l.channel)) [
    | inr absent ↦
        let q : some (unrouted_reason want uu_healthy l) ≡ some reason =
          (simp (wanted, absent) at h) in
        let e : unrouted_reason want uu_healthy l ≡ reason = cc in
        unrouted_cause chs wanted absent (rw (sym e) (ungraced want uu_healthy l))
    | inl routed ↦
        let q : (if leb (want.copies l.hash_name l.channel) kept
              then some "surplus_copies"
              else none)
            ≡ some reason =
          (simp (wanted, routed) at h) in
        let (e, le) = of_surplus (want.copies l.hash_name l.channel) kept reason q in
        surplus_cause chs wanted routed e le
  ]
]
