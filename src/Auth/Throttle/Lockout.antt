-- ===== src/Auth/Throttle/Lockout.antt =====
-- The login lockout: failed logins close the account and the address, a success opens them.
use rent_auto.Prelude.{
  ℕ, ◌+◌, ◌-◌, ◌≤◌, ◌≡◌, refl, ap, ◌∙◌, String, true, false, ◌&&◌, some, List, [], ◌∷◌, ltb, lookup,
  IsMap, lookup-put, lookup-remove, IsMap-put, IsMap-remove, Bool-cases, inl, inr, arith, length,
  All,
}
use rent_auto.Auth.Throttle.{
  Slot, Slots, Limiter, has_expired, current, slot, counted, allow, fail, reset, login_fail_window,
  login_max_fails, login_ip_max_fails,
}
use rent_auto.Auth.Throttle.Budget.{slot-sweep}

pub record IsLimiter (l : Limiter) : Type 0 where
  pub fails_map : IsMap l.fails
  pub ip_fails_map : IsMap l.ip_fails

-- `allow` answers yes exactly if both tiers are under their limits.
allow-eq :
    (l : Limiter) (key ip : String) (now : ℕ)
    → IsLimiter l
    → (allow l key ip now).1 ≡ (
        ltb (slot login_fail_window l.fails key now).count login_max_fails
        && ltb (slot login_fail_window l.ip_fails ip now).count login_ip_max_fails)
unfolding allow
allow-eq l key ip now d =
    let a = slot-sweep 1024 login_fail_window now l.fails key d.fails_map in
    let b = slot-sweep 1024 login_fail_window now l.ip_fails ip d.ip_fails_map in
    elim (Bool-cases (ltb (slot login_fail_window l.fails key now).count login_max_fails)) [
      | inl h ↦ simp (a, h, b) refl
      | inr h ↦ simp (a, h) refl
    ]

-- failures counted against one slot
abbrev counted_all : ℕ → Slots → String → List ℕ → Slots
counted_all window m key [] = m
counted_all window m key (now ∷ times) = counted_all window (counted window m key now) key times

slot-counted_all :
    (window : ℕ) (m : Slots) (key : String) (n start now : ℕ) (times : List ℕ)
    → lookup m key ≡ some (record { count = n; start = start })
    → All (λ t. t - start ≤ window) times
    → now - start ≤ window
    → slot window (counted_all window m key times) key now
      ≡ record { count = n + length times; start = start }
unfolding slot has_expired counted
slot-counted_all window m key n start now [] e _ soon =
    let live : ltb window (now - start) ≡ false = ground (arith, soon) in
    ap (current window now) e
    ∙ simp live (ap (λ k. record { count = k; start = start }) (omega arith))
slot-counted_all window m key n start now (t ∷ times) e (near, later) soon =
    let live : ltb window (t - start) ≡ false = ground (arith, near) in
    let here : slot window m key t ≡ record { count = n; start = start } =
      ap (current window t) e ∙ simp live refl in
    let next : lookup (counted window m key t) key
        ≡ some (record { count = n + 1; start = start }) =
      lookup-put m key _ ∙ ap {A = Slot} (λ s. some (record s { count = s.count + 1 })) here in
    slot-counted_all window (counted window m key t) key (n + 1) start now times next later soon
    ∙ ap (λ k. record { count = k; start = start }) (omega arith)

IsMap-counted_all :
    (window : ℕ) (m : Slots) (key : String) (times : List ℕ)
    → IsMap m
    → IsMap (counted_all window m key times)
unfolding counted
IsMap-counted_all window m key [] d = d
IsMap-counted_all window m key (t ∷ times) d =
    IsMap-counted_all window (counted window m key t) key times (IsMap-put m key _ d)

-- failed logins from one address, each with the key of its account and its instant
unfoldable pub fail_all : Limiter → String → List (String × ℕ) → Limiter
unfolding fail
fail_all l ip [] = l
fail_all l ip ((key, now) ∷ fails) = fail_all (fail l key ip now) ip fails

abbrev pub instants : List (String × ℕ) → List ℕ
instants [] = []
instants ((key, now) ∷ fails) = now ∷ instants fails

ip_fails-fail_all :
    (l : Limiter) (ip : String) (fails : List (String × ℕ))
    → (fail_all l ip fails).ip_fails ≡ counted_all login_fail_window l.ip_fails ip (instants fails)
unfolding fail_all
ip_fails-fail_all l ip [] = refl
ip_fails-fail_all l ip ((key, now) ∷ fails) = ip_fails-fail_all (fail l key ip now) ip fails

IsLimiter-fail_all :
    (l : Limiter) (ip : String) (fails : List (String × ℕ))
    → IsLimiter l
    → IsLimiter (fail_all l ip fails)
unfolding fail_all fail counted
IsLimiter-fail_all l ip [] d = d
IsLimiter-fail_all l ip ((key, now) ∷ fails) d =
    IsLimiter-fail_all (fail l key ip now) ip fails (record {
      fails_map = IsMap-put l.fails key _ d.fails_map;
      ip_fails_map = IsMap-put l.ip_fails ip _ d.ip_fails_map;
    })

-- An address whose window is running is locked out of every account, whatever accounts it tried,
-- from its thirtieth failed login in the window until the window ends.
pub allow-fail_all :
    (l : Limiter) (key ip : String) (n start now : ℕ) (fails : List (String × ℕ))
    → IsLimiter l
    → lookup l.ip_fails ip ≡ some (record { count = n; start = start })
    → All (λ t. t - start ≤ login_fail_window) (instants fails)
    → now - start ≤ login_fail_window
    → login_ip_max_fails ≤ n + length (instants fails)
    → (allow (fail_all l ip fails) key ip now).1 ≡ false
allow-fail_all l key ip n start now fails d e near soon many =
    let s =
      ap (λ m. slot login_fail_window m ip now) (ip_fails-fail_all l ip fails)
      ∙ slot-counted_all login_fail_window l.ip_fails ip n start now (instants fails) e near soon in
    allow-eq (fail_all l ip fails) key ip now (IsLimiter-fail_all l ip fails d)
    ∙ simp s (ground (arith, many))

-- failed logins on one account from one address
abbrev same_key : String → List ℕ → List (String × ℕ)
same_key key [] = []
same_key key (t ∷ times) = (key, t) ∷ same_key key times

fails-fail_all :
    (l : Limiter) (key ip : String) (times : List ℕ)
    → (fail_all l ip (same_key key times)).fails ≡ counted_all login_fail_window l.fails key times
unfolding fail_all fail
fails-fail_all l key ip [] = refl
fails-fail_all l key ip (t ∷ times) = fails-fail_all (fail l key ip t) key ip times

-- An account whose window is running is locked for the address from the fifth failed login in the
-- window until the window ends.
pub allow-fail_account :
    (l : Limiter) (key ip : String) (n start now : ℕ) (times : List ℕ)
    → IsLimiter l
    → lookup l.fails key ≡ some (record { count = n; start = start })
    → All (λ t. t - start ≤ login_fail_window) times
    → now - start ≤ login_fail_window
    → login_max_fails ≤ n + length times
    → (allow (fail_all l ip (same_key key times)) key ip now).1 ≡ false
allow-fail_account l key ip n start now times d e near soon many =
    let s =
      ap (λ m. slot login_fail_window m key now) (fails-fail_all l key ip times)
      ∙ slot-counted_all login_fail_window l.fails key n start now times e near soon in
    allow-eq (fail_all l ip (same_key key times)) key ip now
      (IsLimiter-fail_all l ip (same_key key times) d)
    ∙ simp s (ground (arith, many))

-- After a successful login the account may try again at once, whatever came before.
pub allow-reset :
    (l : Limiter) (key ip : String) (now : ℕ)
    → IsLimiter l
    → (allow (reset l key ip) key ip now).1 ≡ true
unfolding reset slot
allow-reset l key ip now d =
    let d' : IsLimiter (reset l key ip) = record {
      fails_map = IsMap-remove l.fails key d.fails_map;
      ip_fails_map = IsMap-remove l.ip_fails ip d.ip_fails_map;
    } in
    allow-eq (reset l key ip) key ip now d'
    ∙ simp (lookup-remove l.fails key, lookup-remove l.ip_fails ip) refl
