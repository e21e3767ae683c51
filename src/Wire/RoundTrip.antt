-- ===== src/Wire/RoundTrip.antt =====
-- Reading back what was written, and how much a reading takes.
use rent_auto.Prelude.{
  ℕ, zero, suc, ◌+◌, ◌*◌, ◌/◌, ◌%◌, ◌^◌, ◌<◌, ◌≤◌, Option, none, some, List, [], ◌∷◌, ◌++◌, length,
  take, drop, ◌≡◌, refl, arith, ap, ◌∙◌, append_assoc, ltb, eqb, length-append, Bool-cases, inl,
  inr, subst,
}
use rent_auto.Wire.Varint.{put_uvarint, uvarint, uvarint-put_uvarint, uvarint-length}
use rent_auto.Wire.{
  put_le, le, tag, write_u64, write_f64, write_bytes, Next, got, by_wire, with_key, next,
  got_varint, got_bytes, got_fixed, bad_fixed64, bad_fixed32,
}

take-length-append : {A : Type 0} (xs ys : List A) → take (length xs) (xs ++ ys) ≡ xs
take-length-append [] ys = refl
take-length-append (x ∷ xs) ys = ap (λ zs. x ∷ zs) (take-length-append xs ys)

drop-length-append : {A : Type 0} (xs ys : List A) → drop (length xs) (xs ++ ys) ≡ ys
drop-length-append [] ys = refl
drop-length-append (x ∷ xs) ys = drop-length-append xs ys

-- 256 ^ n
abbrev size : ℕ → ℕ
size zero = 1
size (suc n) = 256 * size n

le-put_le : (n v : ℕ) → v < size n → le (put_le n v) ≡ v
unfolding le put_le
le-put_le zero v h = omega arith
le-put_le (suc n) v h = let ih = le-put_le n (v / 256) (omega arith) in omega arith

length-put_le : (n v : ℕ) → length (put_le n v) ≡ n
unfolding put_le
length-put_le zero v = refl
length-put_le (suc n) v = ap suc (length-put_le n (v / 256))

put_uvarint_nonempty :
    (n v : ℕ) (bs : List ℕ)
    → next (put_uvarint (suc n) v ++ bs) ≡ with_key (uvarint 10 (put_uvarint (suc n) v ++ bs))
unfolding put_uvarint next
put_uvarint_nonempty n v bs = ground arith

-- Reading starts with the tag that was written.
next-tag :
    (field wire : ℕ) (bs : List ℕ)
    → field < 2 ^ 29
    → wire < 8
    → next (tag field wire ++ bs) ≡ by_wire field wire bs
unfolding tag
next-tag field wire bs h k =
    rw
      (
        put_uvarint_nonempty 9 (field * 8 % 2 ^ 32 + wire) bs,
        uvarint-put_uvarint 9 (field * 8 % 2 ^ 32 + wire) bs (ground arith),
      )
      (rw (high, low) refl)
  where
    high : (field * 8 % 4294967296 + wire) / 8 % 4294967296 ≡ field
    high = omega arith

    low : (field * 8 % 4294967296 + wire) % 8 ≡ wire
    low = omega arith

-- A varint field is read back: its number, its value, and the bytes after it.
pub next-write_u64 :
    (field v : ℕ) (bs : List ℕ)
    → field < 2 ^ 29
    → v < 2 ^ 64
    → next (write_u64 [] field v ++ bs) ≡ got field 0 [] v bs
unfolding write_u64 by_wire
next-write_u64 field v bs h k =
    rw
      (
        append_assoc (tag field 0) (put_uvarint 10 v) bs,
        next-tag field 0 (put_uvarint 10 v ++ bs) h (omega arith),
        uvarint-put_uvarint 9 v bs k,
      )
      refl

-- A field of bytes is read back: its number, its bytes, and the bytes after it.
pub next-write_bytes :
    (field : ℕ) (b bs : List ℕ)
    → field < 2 ^ 29
    → length b < 2 ^ 64
    → next (write_bytes [] field b ++ bs) ≡ got field 2 b 0 bs
unfolding write_bytes by_wire
next-write_bytes field b bs h k =
    rw
      (
        append_assoc (tag field 2) (put_uvarint 10 (length b) ++ b) bs,
        append_assoc (put_uvarint 10 (length b)) b bs,
        next-tag field 2 (put_uvarint 10 (length b) ++ (b ++ bs)) h (omega arith),
        uvarint-put_uvarint 9 (length b) (b ++ bs) k,
      )
      (rw (take-length-append b bs, drop-length-append b bs) (ground (arith, length-append b bs)))

got_fixed-append :
    (field wire : ℕ) (xs bs : List ℕ) (bad : Next)
    → got_fixed field wire (length xs) bad (xs ++ bs) ≡ got field wire [] (le xs) bs
got_fixed-append field wire xs bs bad =
    rw (take-length-append xs bs, drop-length-append xs bs) (ground (arith, length-append xs bs))

got_fixed-put_le :
    (field wire n v : ℕ) (bs : List ℕ) (bad : Next)
    → v < size n
    → got_fixed field wire n bad (put_le n v ++ bs) ≡ got field wire [] v bs
got_fixed-put_le field wire n v bs bad h =
    subst (λ m. got_fixed field wire m bad (put_le n v ++ bs) ≡ got field wire [] v bs)
      (length-put_le n v)
      (got_fixed-append field wire (put_le n v) bs bad
        ∙ ap (λ x. got field wire [] x bs) (le-put_le n v h))

-- A fixed64 field is read back.
pub next-write_f64 :
    (field v : ℕ) (bs : List ℕ)
    → field < 2 ^ 29
    → v < 2 ^ 64
    → next (write_f64 [] field v ++ bs) ≡ got field 1 [] v bs
unfolding write_f64 by_wire
next-write_f64 field v bs h k =
    rw
      (
        append_assoc (tag field 1) (put_le 8 v) bs,
        next-tag field 1 (put_le 8 v ++ bs) h (omega arith),
      )
      (got_fixed-put_le field 1 8 v bs bad_fixed64 k)

length-take-drop :
    {A : Type 0} (n : ℕ) (xs : List A) → length (drop n xs) + length (take n xs) ≡ length xs
length-take-drop zero xs = omega arith
length-take-drop (suc n) [] = omega arith
length-take-drop (suc n) (x ∷ xs) = omega (arith, length-take-drop n xs)

abbrev Taken : Option (ℕ × List ℕ) → ℕ → Type 0
Taken none n = Unit
Taken (some (v, rest)) n = length rest < n

uvarint-Taken : (bs : List ℕ) → Taken (uvarint 10 bs) (length bs)
uvarint-Taken bs = by_result (uvarint 10 bs) refl
  where
    by_result : (o : Option (ℕ × List ℕ)) → uvarint 10 bs ≡ o → Taken o (length bs)
    by_result none e = tt
    by_result (some (v, rest)) e = uvarint-length 10 v bs rest e

abbrev Shorter : Next → ℕ → Type 0
Shorter (got field wire payload num rest) n = length rest + length payload ≤ n
Shorter _ n = Unit

got_varint-Shorter :
    (field n : ℕ) (o : Option (ℕ × List ℕ)) → Taken o n → Shorter (got_varint field o) n
got_varint-Shorter field n none h = tt
got_varint-Shorter field n (some (v, rest)) h = omega (arith, h)

got_bytes-Shorter :
    (field n : ℕ) (o : Option (ℕ × List ℕ)) → Taken o n → Shorter (got_bytes field o) n
got_bytes-Shorter field n none h = tt
got_bytes-Shorter field n (some (l, rest)) h = elim (Bool-cases (ltb (length rest) l)) [
  | inl e ↦ rw e tt
  | inr e ↦ rw e (omega (arith, h, length-take-drop l rest))
]

got_fixed-Shorter :
    (field wire k : ℕ) (e : Next) (buf : List ℕ)
    → Shorter e (length buf)
    → Shorter (got_fixed field wire k e buf) (length buf)
got_fixed-Shorter field wire k e buf h = elim (Bool-cases (ltb (length buf) k)) [
  | inl q ↦ rw q h
  | inr q ↦ rw q (omega (arith, length-take-drop k buf))
]

by_wire-Shorter : (field wire : ℕ) (buf : List ℕ) → Shorter (by_wire field wire buf) (length buf)
unfolding by_wire
by_wire-Shorter field wire buf = elim (Bool-cases (eqb wire 0)) [
  | inl a ↦ rw a (got_varint-Shorter field (length buf) (uvarint 10 buf) (uvarint-Taken buf))
  | inr a ↦ elim (Bool-cases (eqb wire 1)) [
    | inl b ↦ rw (a, b) (got_fixed-Shorter field 1 8 bad_fixed64 buf tt)
    | inr b ↦ elim (Bool-cases (eqb wire 2)) [
      | inl c ↦
          rw (a, b, c) (got_bytes-Shorter field (length buf) (uvarint 10 buf) (uvarint-Taken buf))
      | inr c ↦ elim (Bool-cases (eqb wire 5)) [
        | inl d ↦ rw (a, b, c, d) (got_fixed-Shorter field 5 4 bad_fixed32 buf tt)
        | inr d ↦ rw (a, b, c, d) tt
      ]
    ]
  ]
]

with_key-shorter :
    (n : ℕ) (o : Option (ℕ × List ℕ)) (field wire : ℕ) (payload : List ℕ) (num : ℕ) (rest : List ℕ)
    → Taken o n
    → with_key o ≡ got field wire payload num rest
    → length rest + length payload < n
with_key-shorter n none field wire payload num rest t h = cc
with_key-shorter n (some (key, buf)) field wire payload num rest t h =
    let kept =
      subst (λ x. Shorter x (length buf)) h (by_wire-Shorter (key / 8 % 2 ^ 32) (key % 8) buf) in
    omega (arith, kept, t)

-- A successful reading takes at least one byte more than its payload.
pub next-length :
    (buf : List ℕ) (field wire : ℕ) (payload : List ℕ) (num : ℕ) (rest : List ℕ)
    → next buf ≡ got field wire payload num rest
    → length rest + length payload < length buf
unfolding next
next-length [] field wire payload num rest h = cc
next-length (b ∷ bs) field wire payload num rest h =
    with_key-shorter (length (b ∷ bs)) (uvarint 10 (b ∷ bs)) field wire payload num rest
      (uvarint-Taken (b ∷ bs)) h
