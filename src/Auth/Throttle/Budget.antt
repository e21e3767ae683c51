-- ===== src/Auth/Throttle/Budget.antt =====
-- What a fixed window admits: a client gets as many attempts as the budget allows, and no others.
use rent_auto.Prelude.{
  ℕ, ◌+◌, ◌-◌, ◌≤◌, ◌≡◌, refl, ap, ◌∙◌, String, true, false, Option, none, some, List, [], ◌∷◌, ltb,
  leb, lookup, IsMap, passing, lookup-put, lookup-keep, IsMap-keep, IsMap-put, if◌then◌else◌,
  Bool-cases, inl, inr, arith, length, min, All,
}
use rent_auto.Auth.Throttle.{
  Slot, Slots, has_expired, is_live, current, slot, sweep, Bucket, bucket_allow,
}

IsMap-sweep : (limit window now : ℕ) (m : Slots) → IsMap m → IsMap (sweep limit window now m)
unfolding sweep
IsMap-sweep limit window now m d = elim (Bool-cases (ltb (length m) limit)) [
  | inl h ↦ simp h d
  | inr h ↦ simp h (IsMap-keep (is_live window now) m d)
]

current-passing :
    (window now : ℕ) (o : Option Slot)
    → current window now (passing (is_live window now) o) ≡ current window now o
current-passing window now none = refl
current-passing window now (some s) = elim (Bool-cases (has_expired window now s)) [
  | inl h ↦ simp h refl
  | inr h ↦ simp (h, h) refl
]

-- Sweeping a map of slots is invisible: every client finds the slot that it would find without it.
pub slot-sweep :
    (limit window now : ℕ) (m : Slots) (key : String)
    → IsMap m
    → slot window (sweep limit window now m) key now ≡ slot window m key now
unfolding slot sweep
slot-sweep limit window now m key d = elim (Bool-cases (ltb (length m) limit)) [
  | inl h ↦ simp h refl
  | inr h ↦ simp h (
      ap (current window now) (lookup-keep (is_live window now) m key d)
      ∙ current-passing window now (lookup m key))
]

-- the answers to attempts of one client at the given instants, with the bucket in the end
unfoldable pub attempts : Bucket → String → List ℕ → Bucket × ℕ
unfolding bucket_allow
attempts b ip [] = (b, 0)
attempts b ip (now ∷ times) =
    let (b', ok) = bucket_allow b ip now in
    let (b'', n) = attempts b' ip times in (b'', if ok then n + 1 else n)

-- the map holds for the client a slot that starts at `start`, with `n` attempts counted
record Open (b : Bucket) (ip : String) (start n : ℕ) : Type 0 where
  is_map : IsMap b.slots
  found : lookup b.slots ip ≡ some (record { count = n; start = start })

Open-refused :
    (b : Bucket) (ip : String) (start n now : ℕ)
    → IsMap b.slots
    → slot b.window b.slots ip now ≡ record { count = n; start = start }
    → leb b.limit n ≡ true
    → ((bucket_allow b ip now).1 ≡ false) × Open (bucket_allow b ip now).0 ip start n
unfolding bucket_allow
Open-refused b ip start n now d here h =
    let m = sweep 4096 b.window now b.slots in
    let found = slot-sweep 4096 b.window now b.slots ip d ∙ here in
    simp (found, h)
      (
        refl,
        record {
          is_map = IsMap-put m ip _ (IsMap-sweep 4096 b.window now b.slots d);
          found = lookup-put m ip _;
        },
      )

Open-granted :
    (b : Bucket) (ip : String) (start n now : ℕ)
    → IsMap b.slots
    → slot b.window b.slots ip now ≡ record { count = n; start = start }
    → leb b.limit n ≡ false
    → ((bucket_allow b ip now).1 ≡ true) × Open (bucket_allow b ip now).0 ip start (n + 1)
unfolding bucket_allow
Open-granted b ip start n now d here h =
    let m = sweep 4096 b.window now b.slots in
    let found = slot-sweep 4096 b.window now b.slots ip d ∙ here in
    simp (found, h)
      (
        refl,
        record {
          is_map = IsMap-put m ip _ (IsMap-sweep 4096 b.window now b.slots d);
          found = lookup-put m ip _;
        },
      )

slot-Open :
    (b : Bucket) (ip : String) (start n now : ℕ)
    → Open b ip start n
    → now - start ≤ b.window
    → slot b.window b.slots ip now ≡ record { count = n; start = start }
unfolding slot has_expired
slot-Open b ip start n now o soon =
    let live : ltb b.window (now - start) ≡ false = ground (arith, soon) in
    ap (current b.window now) o.found ∙ simp live refl

-- the budget stays the same
attempts-Open :
    (b : Bucket) (ip : String) (start n : ℕ) (times : List ℕ)
    → Open b ip start n
    → All (λ now. now - start ≤ b.window) times
    → (attempts b ip times).1 ≡ min (length times) (b.limit - n)
unfolding attempts
attempts-Open b ip start n [] o _ = omega arith
attempts-Open b ip start n (now ∷ times) o (soon, later) =
    let here = slot-Open b ip start n now o soon in
    elim (Bool-cases (leb b.limit n)) [
      | inl h ↦
          let (no_grant, o') = Open-refused b ip start n now o.is_map here h in
          let ih = attempts-Open (bucket_allow b ip now).0 ip start n times o' later in
          simp no_grant (ground (arith, ih, h))
      | inr h ↦
          let (grant, o') = Open-granted b ip start n now o.is_map here h in
          let ih = attempts-Open (bucket_allow b ip now).0 ip start (n + 1) times o' later in
          simp grant (ground (arith, ih, h))
    ]

-- A client without a running window that makes its attempts within one window of the first is granted
-- exactly as many as the budget allows: all of them, or the limit.
pub attempts-eq-min :
    (b : Bucket) (ip : String) (now : ℕ) (times : List ℕ)
    → IsMap b.slots
    → slot b.window b.slots ip now ≡ record { count = 0; start = now }
    → All (λ t. t - now ≤ b.window) times
    → (attempts b ip (now ∷ times)).1 ≡ min (length (now ∷ times)) b.limit
unfolding attempts
attempts-eq-min b ip now times d here later = elim (Bool-cases (leb b.limit 0)) [
  | inl h ↦
      let (no_grant, o) = Open-refused b ip now 0 now d here h in
      let ih = attempts-Open (bucket_allow b ip now).0 ip now 0 times o later in
      simp no_grant (ground (arith, ih, h))
  | inr h ↦
      let (grant, o) = Open-granted b ip now 0 now d here h in
      let ih = attempts-Open (bucket_allow b ip now).0 ip now 1 times o later in
      simp grant (ground (arith, ih, h))
]
