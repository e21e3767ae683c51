-- ===== src/Recon/Delist/Reasons.antt =====
-- Which listings the delist pass takes down, and why: soundness and completeness of the pass.
use rent_auto.Prelude.{
  ◌<◌, ◌≤◌, ◌+◌, filter, arith, eq_refl, eq_iff, String, Bool, true, false, not, ◌&&◌, List, [],
  ◌∷◌, ◌==◌, ◌≡◌, refl, All, All-append, Memᴰ, Option, none, some, Option-cases, ℕ, Bool-cases, inl,
  inr, update_at, subst, mem-append_left, mem-snoc,
}
use rent_auto.Domain.{Channel, channel_uu}
use rent_auto.Recon.{Listing, Action, is_leased, delist_action, contains_channel}
use rent_auto.Recon.Want.{Want}
use rent_auto.Recon.Want.Grouping.{is_at}
use rent_auto.Recon.Publish.Step.{live}
use rent_auto.Recon.Delist.{
  DelistState, delist_reason, is_graced, is_mature, delist_by, delist_listing, delist_listings,
}
use rent_auto.Recon.Delist.Cause.{unrouted_reason}

module _ (want : Want) (uu_healthy : Bool) (now grace : ℕ) where
  -- What the pass establishes of a listing before it plans to take it down.
  pub record MayDelist (ls : List Listing) (l : Listing) (reason : String) : Type 0 where
    pub from : Memᴰ l ls
    pub not_leased : is_leased l ≡ false
    pub kept : ℕ
    pub more : kept < live (filter (is_at l.hash_name l.channel) ls)
    pub reasoned : delist_reason want uu_healthy kept l ≡ some reason
    pub aged : is_graced reason ≡ true → is_mature now grace l reason ≡ true

live_le :
    (l : Listing) (ls : List Listing) (h : String) (ch : Channel)
    → live (filter (is_at h ch) ls) ≤ live (filter (is_at h ch) (l ∷ ls))
live_le l ls h ch = ground arith

live_cons :
    (l : Listing) (ls : List Listing)
    → is_leased l ≡ false
    → live (filter (is_at l.hash_name l.channel) (l ∷ ls))
      ≡ live (filter (is_at l.hash_name l.channel) ls) + 1
live_cons l ls e = ground (arith, e, eq_refl l.hash_name, eq_refl l.channel)

module _ {F : Type 0} (want : Want) (uu_healthy : Bool) (now grace : ℕ) where
  kept-delist_by :
      (l : Listing) (st : DelistState F) (reason : String)
      → (delist_by want uu_healthy now grace l st (some reason)).kept ≡ st.kept
  kept-delist_by l st reason =
      elim (Bool-cases (is_graced reason && not (is_mature now grace l reason))) [
        | inl g ↦
            rw g (elim (Bool-cases (is_graced reason)) [ inl e ↦ rw e refl | inr e ↦ rw e refl ])
        | inr g ↦
            rw g (elim (Bool-cases (is_graced reason)) [ inl e ↦ rw e refl | inr e ↦ rw e refl ])
      ]

  -- what is kept at a place grows by no more than the listing there that is not leased
  kept-delist_listing :
      (st : DelistState F) (l : Listing) (ls : List Listing) (h : String) (ch : Channel)
      → (delist_listing want uu_healthy now grace st l).kept h ch + live (filter (is_at h ch) ls)
        ≤ st.kept h ch + live (filter (is_at h ch) (l ∷ ls))
  unfolding delist_listing
  kept-delist_listing st l ls h ch = elim (Bool-cases (is_leased l)) [
    | inl e ↦ rw e (let up = live_le l ls h ch in omega (arith, up))
    | inr e ↦
        rw e
          (elim (Option-cases (delist_reason want uu_healthy (st.kept l.hash_name l.channel) l)) [
            | inl stays ↦ rw stays (ground (arith, e, eq_iff h l.hash_name, eq_iff ch l.channel))
            | inr (reason, q) ↦
                let same =
                  kept-delist_by l
                    (record st { observations = update_at st.observations l.id (some "") })
                    reason in
                let up = live_le l ls h ch in rw (q, same) (omega (arith, up))
          ])
  ]

  module _ (P : Action F → Type 0) where
    delist_by-All :
        (l : Listing) (st : DelistState F) (r : Option String)
        → ((reason : String)
            → r ≡ some reason
            → (is_graced reason ≡ true → is_mature now grace l reason ≡ true)
            → P (delist_action l reason))
        → All P st.plan
        → All P (delist_by want uu_healthy now grace l st r).plan
    delist_by-All l st none f ps = ps
    delist_by-All l st (some reason) f ps = elim (Bool-cases (is_graced reason)) [
      | inl g ↦ elim (Bool-cases (is_mature now grace l reason)) [
        | inl m ↦ rw (g, m) (All-append P st.plan _ ps (f reason refl (λ _. m), tt))
        | inr m ↦ rw (g, m) ps
      ]
      | inr g ↦ rw g (All-append P st.plan _ ps (f reason refl (λ e. cc), tt))
    ]

    delist_listing-All :
        (ls : List Listing) (l : Listing) (st : DelistState F)
        → Memᴰ l ls
        → (is_leased l ≡ false
            → st.kept l.hash_name l.channel < live (filter (is_at l.hash_name l.channel) ls))
        → ((reason : String)
            → MayDelist want uu_healthy now grace ls l reason
            → P (delist_action l reason))
        → All P st.plan
        → All P (delist_listing want uu_healthy now grace st l).plan
    unfolding delist_listing
    delist_listing-All ls l st m more f ps = elim (Bool-cases (is_leased l)) [
      | inl e ↦ rw e ps
      | inr e ↦ rw e (
          delist_by-All l (record st { observations = update_at st.observations l.id (some "") })
            (delist_reason want uu_healthy (st.kept l.hash_name l.channel) l)
            (λ reason r a. f reason (record {
              from = m;
              not_leased = e;
              kept = _;
              more = more e;
              reasoned = r;
              aged = a;
            }))
            ps)
    ]

    pub delist_listings-All :
        (all ls : List Listing) (st : DelistState F)
        → ((l : Listing) → Memᴰ l ls → Memᴰ l all)
        → ((h : String) (ch : Channel)
            → st.kept h ch + live (filter (is_at h ch) ls) ≤ live (filter (is_at h ch) all))
        → ((l : Listing) (reason : String)
            → MayDelist want uu_healthy now grace all l reason
            → P (delist_action l reason))
        → All P st.plan
        → All P (delist_listings want uu_healthy now grace ls st).plan
    unfolding delist_listings
    delist_listings-All all [] st sub room f ps = ps
    delist_listings-All all (l ∷ ls) st sub room f ps =
        delist_listings-All all ls _ (λ x m. sub x (Memᴰ.tail m))
          (λ h ch. omega (arith, room h ch, kept-delist_listing st l ls h ch)) f
          (delist_listing-All all l st (sub l (Memᴰ.head refl))
            (λ e. omega (arith, room l.hash_name l.channel, live_cons l ls e)) (f l) ps)

  delist_listing_mono :
      {a : Action F} (l : Listing) (st : DelistState F)
      → Memᴰ a st.plan
      → Memᴰ a (delist_listing want uu_healthy now grace st l).plan
  unfolding delist_listing
  delist_listing_mono {a} l st m = elim (Bool-cases (is_leased l)) [
    | inl e ↦ rw e m
    | inr e ↦ rw e (by_reason (delist_reason want uu_healthy (st.kept l.hash_name l.channel) l))
  ]
    where
      by_reason :
          (r : Option String)
          → Memᴰ a
              (delist_by want uu_healthy now grace l
                (record st { observations = update_at st.observations l.id (some "") })
                r).plan
      by_reason none = m
      by_reason (some reason) =
          elim (Bool-cases (is_graced reason && not (is_mature now grace l reason))) [
            | inl g ↦
                rw g (elim (Bool-cases (is_graced reason)) [ inl e ↦ rw e m | inr e ↦ rw e m ])
            | inr g ↦ rw g (mem-append_left st.plan _ m)
          ]

  delist_listings_mono :
      {a : Action F} (ls : List Listing) (st : DelistState F)
      → Memᴰ a st.plan
      → Memᴰ a (delist_listings want uu_healthy now grace ls st).plan
  unfolding delist_listings
  delist_listings_mono [] st m = m
  delist_listings_mono (l ∷ ls) st m = delist_listings_mono ls _ (delist_listing_mono l st m)

  delist_unrouted :
      (l : Listing) (st : DelistState F) (chs : List Channel)
      → is_leased l ≡ false
      → want.desired l.hash_name ≡ some chs
      → contains_channel chs l.channel ≡ false
      → Memᴰ
          (delist_action l (unrouted_reason want uu_healthy l))
          (delist_listing want uu_healthy now grace st l).plan
  unfolding delist_listing
  delist_unrouted l st chs e d c =
      let failover =
        l.channel == channel_uu
        && not uu_healthy
        && (want.route l.hash_name == "uu_primary_eco_fallback") in
      rw (e, delist_reason, d, c)
        (elim (Bool-cases failover) [
          | inl b ↦ rw b (mem-snoc _ st.plan)
          | inr b ↦ rw b (mem-snoc _ st.plan)
        ])

  pub delist_listings_unrouted :
      (ls : List Listing) (l : Listing) (st : DelistState F) (chs : List Channel)
      → Memᴰ l ls
      → is_leased l ≡ false
      → want.desired l.hash_name ≡ some chs
      → contains_channel chs l.channel ≡ false
      → Memᴰ
          (delist_action l (unrouted_reason want uu_healthy l))
          (delist_listings want uu_healthy now grace ls st).plan
  unfolding delist_listings
  delist_listings_unrouted [] l st chs m e d c = elim m [ ]
  delist_listings_unrouted (x ∷ ls) l st chs (Memᴰ.head p) e d c =
      subst
        (λ y.
          Memᴰ (delist_action l (unrouted_reason want uu_healthy l))
            (delist_listings want uu_healthy now grace ls
              (delist_listing want uu_healthy now grace st y)).plan)
        p (delist_listings_mono ls _ (delist_unrouted l st chs e d c))
  delist_listings_unrouted (x ∷ ls) l st chs (Memᴰ.tail m) e d c =
      delist_listings_unrouted ls l _ chs m e d c
