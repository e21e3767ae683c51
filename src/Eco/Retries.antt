-- ===== src/Eco/Retries.antt =====
-- The retries of an ECO call, and what it lets through.
use rent_auto.Prelude.{
  ℕ, zero, suc, ◌+◌, ◌*◌, ◌^◌, ◌≤◌, ◌≡◌, refl, sym, ap, ◌∙◌, String, Bool, true, false, ◌||◌,
  Option, none, some, List, ℤ, pos, eqb, eqb_iff, eqb_ℤ, eqb_ℤ_sound, Bool-cases, inl, inr, arith,
  if◌then◌else◌,
}
use rent_auto.Domain.{Error}
use rent_auto.Risk.{risk_cooldown, auth_expired_cooldown, rate_limit_cooldown}
use rent_auto.Delivery.{Reply, failed, replied}
use rent_auto.Eco.{
  Bytes, Client, Json, Envelope, Exchange, bad_request, bad_transport, bad_body, response,
  check_env, decode_envelope, passed, opened, exchanged, post_once, posted_body, posted_signed,
  posted_waited, is_limited, slept, delay, post_from, post, rate_retry_base, stamped,
  code_rate_limited, code_ip_whitelist, code_identity_id, code_bad_time, code_window_limit,
}

module _ {W V : Type 0} (c : Client W V) (path : String) (biz : List (String × V)) where
  -- What a call with `left` more attempts may come to: the result of an attempt that was not rate
  -- limited, or of the last one; the error of the context, if it ends a pause after a rate limit; or, after
  -- such a pause of the base time doubled for each attempt before and the jitter, what a call with one
  -- attempt less comes to.
  pub data Attempts : ℕ → ℕ → W → W × Reply (Option Bytes) → Type 0 where
    settled :
        (attempt left : ℕ) (w : W)
        → is_limited (post_once c path biz w).1 ≡ false
        → Attempts attempt left w (post_once c path biz w)
    exhausted : (attempt : ℕ) (w : W) → Attempts attempt 0 w (post_once c path biz w)
    cancelled :
        (attempt left time : ℕ) (w v : W) (err : Error)
        → is_limited (post_once c path biz w).1 ≡ true
        → Client.sleep c (Client.jitter c (post_once c path biz w).0).0 time ≡ (v, some err)
        → rate_retry_base * 2 ^ attempt ≤ time
        → Attempts attempt (suc left) w (v, failed err)
    again :
        (attempt left time : ℕ) (w v : W) (r : W × Reply (Option Bytes))
        → is_limited (post_once c path biz w).1 ≡ true
        → Client.sleep c (Client.jitter c (post_once c path biz w).0).0 time ≡ (v, none)
        → rate_retry_base * 2 ^ attempt ≤ time
        → Attempts (attempt + 1) left v r
        → Attempts attempt (suc left) w r

  Attempts-slept :
      (attempt left time : ℕ) (w : W) (o : W × Option Error)
      → is_limited (post_once c path biz w).1 ≡ true
      → Client.sleep c (Client.jitter c (post_once c path biz w).0).0 time ≡ o
      → rate_retry_base * 2 ^ attempt ≤ time
      → ((v : W) → Attempts (attempt + 1) left v (post_from c path biz (attempt + 1) left v))
      → Attempts attempt (suc left) w (slept (λ v. post_from c path biz (attempt + 1) left v) o)
  Attempts-slept attempt left time w (v, some err) h e t f =
      cancelled attempt left time w v err h e t
  Attempts-slept attempt left time w (v, none) h e t f = again attempt left time w v _ h e t (f v)

  Attempts-post_from :
      (attempt left : ℕ) (w : W) → Attempts attempt left w (post_from c path biz attempt left w)
  unfolding post_from
  Attempts-post_from attempt zero w = exhausted attempt w
  Attempts-post_from attempt (suc left) w =
      elim (Bool-cases (is_limited (post_once c path biz w).1)) [
        | inr h ↦ simp h (settled attempt (suc left) w h)
        | inl h ↦ simp h (
            Attempts-slept attempt left
              (delay attempt (Client.jitter c (post_once c path biz w).0).1) w _ h refl
              (omega arith) (λ v. Attempts-post_from (attempt + 1) left v))
      ]

  -- A call of the ECO API comes to one of the ends that two retries after the first attempt allow.
  pub post-Attempts : (w : W) → Attempts 0 2 w (post c path biz w)
  unfolding post
  post-Attempts w = Attempts-post_from 0 2 w

  replied_once :
      (attempt left : ℕ) (w : W) (r : W × Reply (Option Bytes)) (b : Option Bytes)
      → Attempts attempt left w r
      → r.1 ≡ replied b
      → (v : W) × ((post_once c path biz v).1 ≡ replied b)
  replied_once attempt left w r b (settled attempt' left' w' h) q = (w', q)
  replied_once attempt left w r b (exhausted attempt' w') q = (w', q)
  replied_once attempt left w r b (cancelled attempt' left' time w' v err h e t) q = cc
  replied_once attempt left w r b (again attempt' left' time w' v r' h e t more) q =
      replied_once (attempt' + 1) left' v r' b more q

  body_response :
      (w : W) (o : Reply Bytes) (b : Option Bytes)
      → (posted_body c w path o).1 ≡ replied b
      → (body : Bytes) × (exchanged (Client.json c) path (Client.exchange c w path body).1
          ≡ replied b)
  body_response w (failed err) b h = cc
  body_response w (replied body) b h = (body, h)

  signed_response :
      (w : W) (params : List (String × V)) (o : Reply String) (b : Option Bytes)
      → (posted_signed c w path params o).1 ≡ replied b
      → (body : Bytes) × (exchanged (Client.json c) path (Client.exchange c w path body).1
          ≡ replied b)
  signed_response w params (failed err) b h = cc
  signed_response w params (replied sig) b h = body_response w _ b h

  waited_response :
      (o : W × Option Error) (b : Option Bytes)
      → (posted_waited c path biz o).1 ≡ replied b
      → (v : W) × (body : Bytes) × (exchanged (Client.json c) path (Client.exchange c v path body).1
          ≡ replied b)
  waited_response (w, some err) b h = cc
  waited_response (w, none) b h =
      let (body, q) =
        signed_response w (stamped c w biz) (Client.sign c (Client.sign_string c (stamped c w biz)))
          b h in
      (w, body, q)

-- An envelope passes exactly if its code is 0.
check_env-none :
    (j : Json) (e : Envelope) (path : String) → check_env j e path ≡ none → e.code ≡ pos 0
unfolding check_env
check_env-none j e path h = elim (Bool-cases (eqb_ℤ e.code (pos 0))) [
  | inl zero_code ↦ eqb_ℤ_sound e.code (pos 0) zero_code
  | inr other_code ↦ absurd (ground (arith, h, other_code))
]

abbrev cooldown_of : Option Error → ℕ
cooldown_of none = 0
cooldown_of (some err) = risk_cooldown err

abbrev is_credential : ℤ → Bool
is_credential code =
    eqb_ℤ code code_ip_whitelist || (eqb_ℤ code code_identity_id || eqb_ℤ code code_bad_time)

-- what the codes mean for the cooldown of the channel
abbrev pub code_cooldown : ℤ → ℕ
code_cooldown code =
    if eqb_ℤ code code_rate_limited || eqb_ℤ code code_window_limit
    then rate_limit_cooldown
    else if is_credential code
    then auth_expired_cooldown
    else 0

cooldown_of-check_env :
    (j : Json) (e : Envelope) (path : String)
    → cooldown_of (check_env j e path) ≡ code_cooldown e.code
unfolding check_env risk_cooldown
cooldown_of-check_env j e path = elim (Bool-cases (eqb_ℤ e.code (pos 0))) [
  | inl a ↦ simp (eqb_ℤ_sound e.code (pos 0) a) refl
  | inr a ↦ elim (Bool-cases (eqb_ℤ e.code code_rate_limited)) [
    | inl b ↦ simp (a, b) refl
    | inr b ↦ elim (Bool-cases (is_credential e.code)) [
      | inl d ↦ elim (Bool-cases (eqb_ℤ e.code code_window_limit)) [
        | inr f ↦ simp (a, b, d, f) refl
        | inl f ↦
            let clash : false ≡ true =
              sym (ap is_credential (eqb_ℤ_sound e.code code_window_limit f)) ∙ d in
            cc
      ]
      | inr d ↦ elim (Bool-cases (eqb_ℤ e.code code_window_limit)) [
        | inl f ↦ simp (a, b, d, f) refl
        | inr f ↦ simp (a, b, d, f) refl
      ]
    ]
  ]
]

-- The codes of an envelope and the cooldowns: rate limiting, also in the shape of a window that is too
-- long, closes the channel for five minutes, what is wrong with the credentials or the clock for half
-- an hour, and no other code closes it.
pub risk_cooldown-check_env :
    (j : Json) (e : Envelope) (path : String) (err : Error)
    → check_env j e path ≡ some err
    → risk_cooldown err ≡ code_cooldown e.code
risk_cooldown-check_env j e path err h = ap cooldown_of (sym h) ∙ cooldown_of-check_env j e path

opened_code :
    (j : Json) (path : String) (r : Reply Envelope) (b : Option Bytes)
    → opened j path r ≡ replied b
    → (e : Envelope) × (r ≡ replied e) × (e.code ≡ pos 0) × (e.payload ≡ b)
opened_code j path (failed err) b h = cc
opened_code j path (replied e) b h = by_check (check_env j e path) refl h
  where
    by_check :
        (o : Option Error)
        → check_env j e path ≡ o
        → passed e o ≡ replied b
        → (e' : Envelope) × (replied e ≡ replied e') × (e'.code ≡ pos 0) × (e'.payload ≡ b)
    by_check none q k = (e, refl, check_env-none j e path q, cc)
    by_check (some err) q k = cc

exchanged_code :
    (j : Json) (path : String) (x : Exchange) (b : Option Bytes)
    → exchanged j path x ≡ replied b
    → (body : Bytes) × (e : Envelope) × (x ≡ response 200 body)
      × (decode_envelope j body ≡ replied e)
      × (e.code ≡ pos 0)
      × (e.payload ≡ b)
unfolding exchanged
exchanged_code j path (bad_request err) b h = cc
exchanged_code j path (bad_transport err) b h = cc
exchanged_code j path (bad_body err) b h = cc
exchanged_code j path (response status body) b h = elim (Bool-cases (eqb status 200)) [
  | inr bad ↦ absurd (ground (arith, h, bad))
  | inl fine ↦
      let inside : opened j path (decode_envelope j body) ≡ replied b = ground (arith, h, fine) in
      let (e, d, zero_code, p) = opened_code j path (decode_envelope j body) b inside in
      (body, e, ap (λ s. response s body) ((eqb_iff status 200).0 fine), d, zero_code, p)
]

-- A call of the ECO API succeeds only on an answer with status 200 that decodes as an envelope with the
-- code 0, whose payload is what the call returns.
pub post-accepts :
    {W V : Type 0} (c : Client W V) (path : String) (biz : List (String × V)) (w : W)
    (b : Option Bytes)
    → (post c path biz w).1 ≡ replied b
    → (v : W) × (sent : Bytes) × (body : Bytes) × (e : Envelope) × ((Client.exchange c v path
          sent).1
        ≡ response 200 body)
      × (decode_envelope (Client.json c) body ≡ replied e)
      × (e.code ≡ pos 0)
      × (e.payload ≡ b)
unfolding post_once
post-accepts c path biz w b h =
    let (v, q) =
      replied_once c path biz 0 2 w (post c path biz w) b (post-Attempts c path biz w) h in
    let (u, sent, x) = waited_response c path biz (Client.wait c v) b q in
    let (body, e, r, d, zero_code, p) = exchanged_code (Client.json c) path _ b x in
    (u, sent, body, e, r, d, zero_code, p)
