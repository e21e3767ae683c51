-- ===== src/Wire/Varint.antt =====
-- PutUvarint and Uvarint of encoding/binary, on a number of bytes that is still allowed (ten at first).
use rent_auto.Prelude.{
  ℕ, zero, suc, ◌+◌, ◌*◌, ◌/◌, ◌%◌, ◌<◌, true, false, ◌&&◌, Option, none, some, List, [], ◌∷◌, ◌++◌,
  ltb, eqb, length, if◌then◌else◌, ◌≡◌, refl, arith, Bool-cases, inl, inr, ap,
}

unfoldable pub put_uvarint : ℕ → ℕ → List ℕ
put_uvarint zero v = []
put_uvarint (suc n) v =
    let rest = put_uvarint n (v / 128) in if ltb v 128 then v ∷ [] else (v % 128 + 128) ∷ rest

abbrev pub more : ℕ → Option (ℕ × List ℕ) → Option (ℕ × List ℕ)
more b none = none
more b (some (v, rest)) = some (b % 128 + 128 * v, rest)

-- none where Uvarint returns no length: the bytes run out, or the value overflows 64 bits
unfoldable pub uvarint : ℕ → List ℕ → Option (ℕ × List ℕ)
uvarint zero bs = none
uvarint (suc n) [] = none
uvarint (suc n) (b ∷ bs) =
    let rest = uvarint n bs in
    if ltb b 128 then if eqb n 0 && ltb 1 b then none else some (b, bs) else more b rest

-- twice 128 ^ n
abbrev pub limit : ℕ → ℕ
limit zero = 2
limit (suc n) = 128 * limit n

put_uvarint_more :
    (n v : ℕ)
    → ltb v 128 ≡ false
    → put_uvarint (suc n) v ≡ (v % 128 + 128) ∷ put_uvarint n (v / 128)
unfolding put_uvarint
put_uvarint_more n v h = rw h refl

put_uvarint_last : (n v : ℕ) → ltb v 128 ≡ true → put_uvarint (suc n) v ≡ v ∷ []
unfolding put_uvarint
put_uvarint_last n v h = rw h refl

uvarint-more :
    (n c : ℕ) (bs : List ℕ) → uvarint (suc n) ((c + 128) ∷ bs) ≡ more (c + 128) (uvarint n bs)
unfolding uvarint
uvarint-more n c bs = ground arith

uvarint_last :
    (n v : ℕ) (bs : List ℕ)
    → ltb v 128 ≡ true
    → v < limit n
    → uvarint (suc n) (v ∷ bs) ≡ some (v, bs)
unfolding uvarint
uvarint_last zero v bs h k = ground arith
uvarint_last (suc n) v bs h k = ground (arith, h)

-- What is written with as many bytes as its size needs is read back, and nothing else is taken.
pub uvarint-put_uvarint :
    (n v : ℕ) (bs : List ℕ)
    → v < limit n
    → uvarint (suc n) (put_uvarint (suc n) v ++ bs) ≡ some (v, bs)
uvarint-put_uvarint zero v bs h =
    rw (put_uvarint_last zero v (ground arith)) (uvarint_last zero v bs (ground arith) h)
uvarint-put_uvarint (suc n) v bs h = elim (Bool-cases (ltb v 128)) [
  | inl s ↦ rw (put_uvarint_last (suc n) v s) (uvarint_last (suc n) v bs s h)
  | inr l ↦
      rw
        (
          put_uvarint_more (suc n) v l,
          uvarint-more (suc n) (v % 128) (put_uvarint (suc n) (v / 128) ++ bs),
          uvarint-put_uvarint n (v / 128) bs (ground arith),
        )
        (ap some (ground arith))
]

-- A varint takes at least one byte.
pub uvarint-length :
    (n v : ℕ) (bs rest : List ℕ) → uvarint n bs ≡ some (v, rest) → length rest < length bs
unfolding uvarint
uvarint-length zero v bs rest h = cc
uvarint-length (suc n) v [] rest h = cc
uvarint-length (suc n) v (b ∷ bs) rest h = ground (arith, uvarint-length n (v / 128) bs rest)
