-- ===== src/Recon/Want/Desired.antt =====
-- `desiredByHash`: where it comes from.
use rent_auto.Prelude.{
  String, Bool, false, List, [], ◌∷◌, ◌==◌, ◌≡◌, ◌≢◌, refl, if◌then◌else◌, All, Memᴰ, none, some,
  ◌⊎◌, arith, eq_iff, Bool-cases, inl, inr, ◌∙◌, sym,
}
use rent_auto.Domain.{Channel}
use rent_auto.Recon.{Item, desired_channels}
use rent_auto.Recon.Want.{Want, want_channel, want_channels, want_item, want_items}

want_channel-desired :
    (h a : String) (ch : Channel) (w : Want) → (want_channel h a ch w).desired ≡ w.desired
want_channel-desired h a ch w = elim (Bool-cases (w.distinct h ch a)) [
  | inl e ↦ rw e
  | inr e ↦ rw e
]

pub want_channels-desired :
    (h a : String) (chs : List Channel) (w : Want) → (want_channels h a chs w).desired ≡ w.desired
unfolding want_channels
want_channels-desired h a [] w = refl
want_channels-desired h a (ch ∷ chs) w =
    want_channels-desired h a chs (want_channel h a ch w) ∙ want_channel-desired h a ch w

module _ {F : Type 0} (leased : String → Bool) (uu_healthy : Bool) where
  want_item-desired :
      (w : Want) (it : Item F) (h : String)
      → (want_item leased uu_healthy w it).desired h ≡ (
          if leased it.asset_id
          then w.desired h
          else (if h == it.hash_name
              then some (desired_channels it.route uu_healthy)
              else w.desired h))
  unfolding want_item
  want_item-desired w it h = elim (Bool-cases (leased it.asset_id)) [
    | inl e ↦ rw e
    | inr e ↦ rw (e, want_channels-desired it.hash_name it.asset_id)
  ]

  -- an item that is not leased, and whose route gives `chs` for `h`
  pub record Routes (items : List (Item F)) (h : String) (chs : List Channel) : Type 0 where
    pub item : Item F
    pub from : Memᴰ item items
    pub not_leased : leased item.asset_id ≡ false
    pub same_hash : item.hash_name ≡ h
    pub routes : desired_channels item.route uu_healthy ≡ chs

  later :
      {it : Item F} {its : List (Item F)} {h : String} {chs : List Channel}
      → Routes its h chs
      → Routes (it ∷ its) h chs
  later r = record {
    item = r.item;
    from = Memᴰ.tail r.from;
    not_leased = r.not_leased;
    same_hash = r.same_hash;
    routes = r.routes;
  }

  pub desired_Routes :
      (its : List (Item F)) (w : Want) (h : String) (chs : List Channel)
      → (want_items leased uu_healthy its w).desired h ≡ some chs
      → (w.desired h ≡ some chs) ⊎ Routes its h chs
  unfolding want_items
  desired_Routes [] w h chs e = inl e
  desired_Routes (it ∷ its) w h chs e =
      elim (desired_Routes its (want_item leased uu_healthy w it) h chs e) [
        | inr r ↦ inr (later r)
        | inl p ↦ elim (Bool-cases (leased it.asset_id)) [
          | inl l ↦ inl (ground (arith, want_item-desired w it h))
          | inr l ↦ elim (Bool-cases (h == it.hash_name)) [
            | inr n ↦ inl (ground (arith, want_item-desired w it h))
            | inl y ↦ inr (record {
              item = it;
              from = Memᴰ.head refl;
              not_leased = l;
              same_hash = sym ((eq_iff h it.hash_name).0 y);
              routes = ground (arith, want_item-desired w it h);
            })
          ]
        ]
      ]

  desired_mono :
      (its : List (Item F)) (w : Want) (h : String)
      → (want_items leased uu_healthy its w).desired h ≡ none
      → w.desired h ≡ none
  unfolding want_items
  desired_mono [] w h e = e
  desired_mono (it ∷ its) w h e =
      let d = desired_mono its (want_item leased uu_healthy w it) h e in
      ground (arith, want_item-desired w it h)

  -- A hash that is not in the map has no item that is not leased.
  pub desired_none :
      (its : List (Item F)) (w : Want) (h : String)
      → (want_items leased uu_healthy its w).desired h ≡ none
      → All (λ it. leased it.asset_id ≡ false → it.hash_name ≢ h) its
  unfolding want_items
  desired_none [] w h e = tt
  desired_none (it ∷ its) w h e = (
    λ l q.
        let d = desired_mono its (want_item leased uu_healthy w it) h e in
        ground (arith, want_item-desired w it h, eq_iff h it.hash_name),
    desired_none its (want_item leased uu_healthy w it) h e,
  )
