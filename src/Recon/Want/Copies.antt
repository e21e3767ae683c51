-- ===== src/Recon/Want/Copies.antt =====
-- `wantCopies` counts, for each hash and channel, the distinct assets that are to stand there.
use rent_auto.Prelude.{
  String, Bool, not, ◌&&◌, ◌||◌, List, [], ◌∷◌, ◌++◌, ◌==◌, ◌≡◌, refl, any, length, length-append,
  update, IsDistinct, IsDistinct-snoc, any-snoc-eq-or, arith, eq_iff, Bool-cases, inl, inr, some,
  ◌∙◌,
}
use rent_auto.Domain.{Channel}
use rent_auto.Recon.{Item, desired_channels, contains_channel}
use rent_auto.Recon.Want.{Want, no_want, want_channel, want_channels, want_item, want_items}

-- `assets` lists the set `distinct[h][ch]`, and `wantCopies[h][ch]` is their number.
pub record Counted (h : String) (ch : Channel) (w : Want) : Type 0 where
  pub assets : List String
  pub distinct : IsDistinct assets
  pub covers : (a : String) → any (λ x. x == a) assets ≡ w.distinct h ch a
  pub counts : length assets ≡ w.copies h ch

want_channel-Counted :
    (h : String) (c : Channel) (k a : String) (ch : Channel) (w : Want)
    → Counted h c w
    → Counted h c (want_channel k a ch w)
want_channel-Counted h c k a ch w n = elim (Bool-cases (w.distinct k ch a)) [
  | inl e ↦ rw e n
  | inr e ↦ rw e (elim (Bool-cases (h == k && c == ch)) [
    | inr f ↦ record {
      assets = n.assets;
      distinct = n.distinct;
      covers = λ x. rw f (n.covers x);
      counts = rw f n.counts;
    }
    | inl f ↦ record {
      assets = n.assets ++ (a ∷ []);
      distinct =
          IsDistinct-snoc a n.assets n.distinct
            (ground (arith, n.covers a, eq_iff h k, eq_iff c ch));
      covers = λ x. ground (
        arith,
        any-snoc-eq-or x a n.assets,
        n.covers x,
        eq_iff h k,
        eq_iff c ch,
        eq_iff x a,
        eq_iff a x,
      );
      counts = ground (arith, length-append n.assets (a ∷ []), n.counts, eq_iff h k, eq_iff c ch);
    }
  ])
]

want_channels-Counted :
    (h : String) (c : Channel) (k a : String) (chs : List Channel) (w : Want)
    → Counted h c w
    → Counted h c (want_channels k a chs w)
unfolding want_channels
want_channels-Counted h c k a [] w n = n
want_channels-Counted h c k a (ch ∷ chs) w n =
    want_channels-Counted h c k a chs _ (want_channel-Counted h c k a ch w n)

want_channels-distinct :
    (k a : String) (chs : List Channel) (w : Want) (h : String) (c : Channel) (x : String)
    → (want_channels k a chs w).distinct h c x
      ≡ (w.distinct h c x || (h == k && (x == a && contains_channel chs c)))
unfolding want_channels contains_channel
want_channels-distinct k a [] w h c x = ground arith
want_channels-distinct k a (ch ∷ chs) w h c x = ground (
  arith,
  want_channels-distinct k a chs (want_channel k a ch w) h c x,
  eq_iff h k,
  eq_iff c ch,
  eq_iff ch c,
  eq_iff x a,
)

module _ {F : Type 0} (leased : String → Bool) (uu_healthy : Bool) where
  -- The item is not leased, has the hash and the asset, and its route wants the channel.
  abbrev pub wants : String → Channel → String → Item F → Bool
  wants h c x it =
      not (leased it.asset_id)
      && (h == it.hash_name
          && (x == it.asset_id && contains_channel (desired_channels it.route uu_healthy) c))

  want_item-distinct :
      (w : Want) (it : Item F) (h : String) (c : Channel) (x : String)
      → (want_item leased uu_healthy w it).distinct h c x ≡ (w.distinct h c x || wants h c x it)
  unfolding want_item
  want_item-distinct w it h c x = elim (Bool-cases (leased it.asset_id)) [
    | inl e ↦ rw e (ground arith)
    | inr e ↦ rw (e, want_channels-distinct it.hash_name it.asset_id)
  ]

  want_item-Counted :
      (h : String) (c : Channel) (w : Want) (it : Item F)
      → Counted h c w
      → Counted h c (want_item leased uu_healthy w it)
  unfolding want_item
  want_item-Counted h c w it n = elim (Bool-cases (leased it.asset_id)) [
    | inl e ↦ rw e n
    | inr e ↦ rw e (
        want_channels-Counted h c it.hash_name it.asset_id (desired_channels it.route uu_healthy)
          (record w {
            desired = update w.desired it.hash_name (some (desired_channels it.route uu_healthy));
            route = update w.route it.hash_name it.route;
          })
          (record {
            assets = n.assets;
            distinct = n.distinct;
            covers = n.covers;
            counts = n.counts;
          }))
  ]

  pub want_items-Counted :
      (h : String) (c : Channel) (its : List (Item F)) (w : Want)
      → Counted h c w
      → Counted h c (want_items leased uu_healthy its w)
  unfolding want_items
  want_items-Counted h c [] w n = n
  want_items-Counted h c (it ∷ its) w n =
      want_items-Counted h c its _ (want_item-Counted h c w it n)

  pub want_items-distinct :
      (its : List (Item F)) (w : Want) (h : String) (c : Channel) (x : String)
      → (want_items leased uu_healthy its w).distinct h c x
        ≡ (w.distinct h c x || any (wants h c x) its)
  unfolding want_items
  want_items-distinct [] w h c x = ground arith
  want_items-distinct (it ∷ its) w h c x = ground (
    arith,
    want_items-distinct its (want_item leased uu_healthy w it) h c x,
    want_item-distinct w it h c x,
  )

  -- The wanted copies are the distinct assets that some item wants there.
  pub copies_lem :
      (its : List (Item F)) (h : String) (c : Channel)
      → (assets : List String) × IsDistinct assets
        × ((x : String) → any (λ y. y == x) assets ≡ any (wants h c x) its)
        × (length assets ≡ (want_items leased uu_healthy its no_want).copies h c)
  copies_lem its h c =
      let n =
        want_items-Counted h c its no_want
          (record { assets = []; distinct = tt; covers = λ a. refl; counts = refl }) in
      (n.assets, n.distinct, λ x. n.covers x ∙ want_items-distinct its no_want h c x, n.counts)
