-- ===== src/Recon/Publish/Step.antt =====
-- What one round of the publish pass does: it leaves the plan alone, or publishes under the guards.
use rent_auto.Prelude.{
  ℕ, ◌+◌, ◌<◌, String, Bool, true, false, not, ◌||◌, List, [], ◌∷◌, ◌++◌, ◌==◌, ◌≡◌, refl,
  if◌then◌else◌, any, leb, length, update₂, filter, Option, none, some, ◌⊎◌, arith, Bool-cases, inl,
  inr,
}
use rent_auto.Domain.{Channel}
use rent_auto.Pricing.{Decision}
use rent_auto.Recon.{Item, Listing, is_leased, publish_action}
use rent_auto.Recon.Want.{Want}
use rent_auto.Recon.Publish.{scan, PublishState, commit, publish_channel}

-- the listings of `ls` that hold a shelf slot
abbrev pub live : List Listing → ℕ
live ls = length (filter (λ l. not (is_leased l)) ls)

abbrev pub has_asset : String → List Listing → Bool
has_asset a = any (λ l. l.asset_id == a)

pub scan_lem :
    (a : String) (ls : List Listing) (b : Bool) (n : ℕ)
    → scan a ls (b, n) ≡ (b || has_asset a ls, n + live ls)
unfolding scan
scan_lem a [] b n = ground arith
scan_lem a (l ∷ ls) b n =
    ground (
      arith,
      scan_lem a ls (if l.asset_id == a then true else b) (if is_leased l then n else n + 1),
    )

pub scan_fresh : (a : String) (ls : List Listing) → scan a ls (false, 0) ≡ (has_asset a ls, live ls)
scan_fresh a ls = ground (arith, scan_lem a ls false 0)

module _ {F S : Type 0} (decide : S → Channel → Item F → S × Option (Decision F)) (want : Want)
    (leased : String → Bool) (listed : String → Channel → List Listing) where
  abbrev pub published_state :
      Item F → Channel → PublishState F S → S → Decision F → PublishState F S
  published_state it ch st m d = record {
    planned = update₂ st.planned it.hash_name ch (st.planned it.hash_name ch ++ (it.asset_id ∷ []));
    plan = st.plan ++ (publish_action ch it d ∷ []);
    mem = m;
  }

  -- The guards of a publish: a slot is free, and the asset is neither listed nor planned there.
  pub record Guards (it : Item F) (ch : Channel) (st : PublishState F S) (d : Decision F)
      : Type 0 where
    pub ok : d.ok ≡ true
    pub not_planned : any (λ a. a == it.asset_id) (st.planned it.hash_name ch) ≡ false
    pub not_listed : has_asset it.asset_id (listed it.hash_name ch) ≡ false
    pub room :
        live (listed it.hash_name ch) + length (st.planned it.hash_name ch)
        < want.copies it.hash_name ch

  abbrev pub Outcome : Item F → Channel → PublishState F S → PublishState F S → Type 0
  Outcome it ch st st' =
      ((m : S) × (st' ≡ record st { mem = m }))
      ⊎ ((m : S) × (d : Decision F) × Guards it ch st d × (st' ≡ published_state it ch st m d))

  commit_Outcome :
      (it : Item F) (ch : Channel) (st : PublishState F S) (m : S) (o : Option (Decision F))
      → any (λ a. a == it.asset_id) (st.planned it.hash_name ch) ≡ false
      → has_asset it.asset_id (listed it.hash_name ch) ≡ false
      → live (listed it.hash_name ch) + length (st.planned it.hash_name ch)
        < want.copies it.hash_name ch
      → Outcome it ch st (commit it ch (record st { mem = m }) o)
  commit_Outcome it ch st m none n f r = inl (m, refl)
  commit_Outcome it ch st m (some d) n f r = elim (Bool-cases d.ok) [
    | inr e ↦ inl (m, rw e)
    | inl e ↦ inr (m, d, record { ok = e; not_planned = n; not_listed = f; room = r }, rw e)
  ]

  pub publish_channel_Outcome :
      (it : Item F) (st : PublishState F S) (ch : Channel)
      → Outcome it ch st (publish_channel decide want leased listed it st ch)
  unfolding publish_channel
  publish_channel_Outcome it st ch =
      let ls = listed it.hash_name ch in
      let mine = st.planned it.hash_name ch in
      elim (Bool-cases (any (λ a. a == it.asset_id) mine)) [
        | inl e ↦ inl (st.mem, rw e)
        | inr e ↦
            elim (Bool-cases (
              has_asset it.asset_id ls
              || leb (want.copies it.hash_name ch) (live ls + length mine))) [
                | inl f ↦ inl (st.mem, rw (e, scan_fresh it.asset_id ls, f))
                | inr f ↦
                    rw (e, scan_fresh it.asset_id ls, f)
                      (commit_Outcome it ch st (decide st.mem ch it).0 (decide st.mem ch it).1 e
                        (ground arith) (ground arith))
              ]
      ]
