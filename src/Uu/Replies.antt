-- ===== src/Uu/Replies.antt =====
-- What a UU call lets through, and what the business codes mean for the cooldowns.
use rent_auto.Prelude.{
  ℕ, ◌≡◌, refl, sym, ap, ◌∙◌, String, true, not, ◌||◌, Option, none, some, pos, eqb, eqb_ℤ,
  eqb_ℤ_sound, Bool-cases, inl, inr, arith, if◌then◌else◌,
}
use rent_auto.Domain.{Error}
use rent_auto.Risk.{risk_cooldown, auth_expired_cooldown, platform_block_cool}
use rent_auto.Delivery.{Reply, failed, replied}
use rent_auto.Uu.{
  Bytes, Transport, Json, Exchange, bad_request, bad_transport, bad_body, response, Envelope,
  is_json, exchanged, do_call, waited, sent, raw_int, decode_envelope, check_env, opened, checked,
  decoded, call_env, code_auth_expired, code_risk_control, code_version_blocked,
  code_captcha_required,
}

exchanged-response :
    (j : Json) (method path : String) (x : Exchange) (b : Bytes)
    → exchanged j method path x ≡ replied b
    → (x ≡ response 200 b) × (is_json j b ≡ true)
unfolding exchanged
exchanged-response j method path (bad_request err) b h = cc
exchanged-response j method path (bad_transport err) b h = cc
exchanged-response j method path (bad_body err) b h = cc
exchanged-response j method path (response status body) b h = elim (Bool-cases (eqb status 405)) [
  | inl gone ↦ absurd (ground (arith, h, gone))
  | inr here ↦ elim (Bool-cases (not (eqb status 200) || not (is_json j body))) [
    | inl bad ↦ absurd (ground (arith, h, here, bad))
    | inr fine ↦
        let same : body ≡ b = ground (arith, h, here, fine) in
        let ok : status ≡ 200 = ground (arith, fine) in
        (
          ap (λ s. response s body) ok ∙ ap (response 200) same,
          ap (is_json j) (sym same) ∙ ground (arith, fine),
        )
  ]
]

-- An envelope passes exactly if its code is 0.
pub check_env-none :
    (j : Json) (e : Envelope) (path : String) → check_env j e path ≡ none → e.code ≡ pos 0
unfolding check_env
check_env-none j e path h = elim (Bool-cases (eqb_ℤ e.code (pos 0))) [
  | inl zero_code ↦ eqb_ℤ_sound e.code (pos 0) zero_code
  | inr other_code ↦ absurd (ground (arith, h, other_code))
]

checked-code :
    (j : Json) (what : String) (e e' : Envelope) (o : Option Error)
    → check_env j e what ≡ o
    → checked j what e o ≡ replied e'
    → (e ≡ e') × (e.code ≡ pos 0)
checked-code j what e e' none q h = (cc, check_env-none j e what q)
checked-code j what e e' (some err) q h = cc

opened-code :
    (j : Json) (what : String) (r : Reply Envelope) (e : Envelope)
    → opened j what r ≡ replied e
    → (r ≡ replied e) × (e.code ≡ pos 0)
opened-code j what (failed err) e h = cc
opened-code j what (replied e') e h =
    let (same, zero_code) = checked-code j what e' e (check_env j e' what) refl h in
    (ap replied same, ap Envelope.code (sym same) ∙ zero_code)

decoded-bytes :
    (j : Json) (r : Reply Bytes) (e : Envelope)
    → decoded j r ≡ replied e
    → (b : Bytes) × (r ≡ replied b) × (decode_envelope j b ≡ replied e)
decoded-bytes j (failed err) e h = cc
decoded-bytes j (replied b) e h = (b, refl, h)

module _ {W P : Type 0} where
  sent-response :
      (t : Transport W P) (j : Json) (w : W) (method path : String) (r : Reply (Option Bytes))
      (b : Bytes)
      → (sent t j w method path r).1 ≡ replied b
      → (body : Option Bytes) × ((Transport.exchange t w method path body).1 ≡ response 200 b)
        × (is_json j b ≡ true)
  sent-response t j w method path (failed err) b h = cc
  sent-response t j w method path (replied body) b h =
      let (x, js) =
        exchanged-response j method path (Transport.exchange t w method path body).1 b h in
      (body, x, js)

  waited-response :
      (t : Transport W P) (j : Json) (method path : String) (payload : Option P)
      (r : W × Option Error) (b : Bytes)
      → (waited t j method path payload r).1 ≡ replied b
      → (body : Option Bytes) × ((Transport.exchange t r.0 method path body).1 ≡ response 200 b)
        × (is_json j b ≡ true)
  waited-response t j method path payload (w, some err) b h = cc
  waited-response t j method path payload (w, none) b h = sent-response t j w method path _ b h

  -- A call of the API succeeds only on an answer with status 200 whose body starts like a JSON
  -- document, decodes as an envelope with a code, and has the code 0; the envelope returned is that one.
  pub call_env-accepts :
      (t : Transport W P) (j : Json) (w : W) (method path what : String) (payload : P)
      (e : Envelope)
      → (call_env t j w method path payload what).1 ≡ replied e
      → (body : Option Bytes) × (b : Bytes) × ((Transport.exchange t
            (Transport.wait t w).0
            method
            path
            body).1
          ≡ response 200 b)
        × (is_json j b ≡ true)
        × (decode_envelope j b ≡ replied e)
        × (e.code ≡ pos 0)
  unfolding call_env do_call
  call_env-accepts t j w method path what payload e h =
      let r = do_call t j w method path (some payload) in
      let (d, zero_code) = opened-code j what (decoded j r.1) e h in
      let (b, q, dec) = decoded-bytes j r.1 e d in
      let (body, x, js) = waited-response t j method path (some payload) (Transport.wait t w) b q in
      (body, b, x, js, dec, zero_code)

abbrev cooldown_of : Option Error → ℕ
cooldown_of none = 0
cooldown_of (some err) = risk_cooldown err

cooldown_of-check_env :
    (j : Json) (e : Envelope) (path : String)
    → cooldown_of (check_env j e path) ≡ (
        if eqb_ℤ e.code code_auth_expired
        then auth_expired_cooldown
        else if eqb_ℤ e.code code_risk_control
        then platform_block_cool
        else 0)
unfolding check_env risk_cooldown
cooldown_of-check_env j e path = elim (Bool-cases (eqb_ℤ e.code (pos 0))) [
  | inl a ↦ simp (eqb_ℤ_sound e.code (pos 0) a) refl
  | inr a ↦ elim (Bool-cases (eqb_ℤ e.code code_auth_expired)) [
    | inl b ↦ simp (a, b) refl
    | inr b ↦ elim (Bool-cases (eqb_ℤ e.code code_risk_control)) [
      | inl c ↦ simp (a, b, c) refl
      | inr c ↦ elim (Bool-cases (eqb_ℤ e.code code_version_blocked)) [
        | inl d ↦ simp (a, b, c, d) refl
        | inr d ↦ elim (Bool-cases (eqb_ℤ e.code code_captcha_required)) [
          | inl f ↦ simp (a, b, c, d, f) refl
          | inr f ↦ simp (a, b, c, d, f) refl
        ]
      ]
    ]
  ]
]

-- The codes of an envelope and the cooldowns: an expired login closes the channel for half an hour, risk
-- control for a quarter of an hour, and no other code closes it.
pub risk_cooldown-check_env :
    (j : Json) (e : Envelope) (path : String) (err : Error)
    → check_env j e path ≡ some err
    → risk_cooldown err ≡ (
        if eqb_ℤ e.code code_auth_expired
        then auth_expired_cooldown
        else if eqb_ℤ e.code code_risk_control
        then platform_block_cool
        else 0)
unfolding check_env risk_cooldown
risk_cooldown-check_env j e path err h = ap cooldown_of (sym h) ∙ cooldown_of-check_env j e path

-- A document without `Code` and `code` is refused: a body that is no answer does not read as code 0.
pub decode_envelope-closed :
    (j : Json) (b : Bytes) (m : String → Option Bytes)
    → Json.object j b ≡ replied m
    → m "Code" ≡ none
    → m "code" ≡ none
    → (err : Error) × (decode_envelope j b ≡ failed err)
unfolding decode_envelope raw_int
decode_envelope-closed j b m o h k = simp (o, h, k) (_, refl)
