-- ===== src/Padding.antt =====
-- backend/internal/platform/uu/crypto.go: the PKCS#7 padding of the encrypted requests, on lists of bytes.
use rent_auto.Prelude.{
  ℕ, zero, suc, ◌+◌, ◌-◌, ◌%◌, ◌<◌, ◌≤◌, Bool, true, false, not, ◌||◌, List, [], ◌∷◌, ◌++◌, ◌≡◌,
  Option, none, some, ltb, eqb, length, take, drop, replicate, if◌then◌else◌, arith, refl, ap, sym,
  ◌∙◌, subst, length-append, length-replicate,
}
use native.Mathlib.Nat.{mod-lt, mod-add-mod, mod_self, mod-eq_of_lt}

unfoldable pub pkcs7_pad : List ℕ → ℕ → List ℕ
pkcs7_pad bytes block_size =
    let pad = block_size - length bytes % block_size in bytes ++ replicate pad (pad % 256)

-- data[len(data)-1], 0 if there is none
abbrev pub last_byte : List ℕ → ℕ
last_byte [] = 0
last_byte (b ∷ []) = b
last_byte (_ ∷ c ∷ bs) = last_byte (c ∷ bs)

unfoldable pub all_are : ℕ → List ℕ → Bool
all_are pad [] = true
all_are pad (b ∷ bs) = let rest = all_are pad bs in if eqb b pad then rest else false

-- none is any of the errors
unfoldable pub pkcs7_unpad : List ℕ → ℕ → Option (List ℕ)
unfolding all_are
pkcs7_unpad bytes block_size =
    if eqb (length bytes) 0 || not (eqb (length bytes % block_size) 0)
    then none
    else (let pad = last_byte bytes in
        if eqb pad 0 || (ltb block_size pad || ltb (length bytes) pad)
        then none
        else if not (all_are pad (drop (length bytes - pad) bytes))
        then none
        else some (take (length bytes - pad) bytes))

last_byte-append : (xs : List ℕ) (n b : ℕ) → last_byte (xs ++ replicate (suc n) b) ≡ b
last_byte-append [] zero b = refl
last_byte-append [] (suc n) b = last_byte-append [] n b
last_byte-append (x ∷ []) n b = last_byte-append [] n b
last_byte-append (x ∷ y ∷ xs) n b = last_byte-append (y ∷ xs) n b

all_are-replicate : (n b : ℕ) → all_are b (replicate n b) ≡ true
unfolding all_are
all_are-replicate zero b = refl
all_are-replicate (suc n) b = ground (arith, all_are-replicate n b)

take-append : (xs ys : List ℕ) → take (length xs) (xs ++ ys) ≡ xs
take-append [] ys = refl
take-append (x ∷ xs) ys = ap (λ zs. x ∷ zs) (take-append xs ys)

drop-append : (xs ys : List ℕ) → drop (length xs) (xs ++ ys) ≡ ys
drop-append [] ys = refl
drop-append (x ∷ xs) ys = drop-append xs ys

-- Padding by `suc n` bytes is taken off again.
unpad-append :
    (bytes : List ℕ) (n block_size : ℕ)
    → suc n ≤ block_size
    → (length bytes + suc n) % block_size ≡ 0
    → pkcs7_unpad (bytes ++ replicate (suc n) (suc n)) block_size ≡ some bytes
unfolding pkcs7_unpad
unpad-append bytes n block_size h e =
    rw
      (
        last_byte-append bytes n (suc n),
        length-append bytes (replicate (suc n) (suc n)),
        length-replicate n (suc n),
        rest,
      )
      (rw
        (
          drop-append bytes (replicate (suc n) (suc n)),
          all_are-replicate n (suc n),
          take-append bytes (replicate (suc n) (suc n)),
          e,
        )
        (ground (arith, h)))
  where
    rest : length bytes + suc n - suc n ≡ length bytes
    rest = omega arith

-- What is padded to blocks of 1 to 255 bytes is unpadded to the same data.
pub pkcs7_unpad-pkcs7_pad :
    (bytes : List ℕ) (block_size : ℕ)
    → 0 < block_size
    → block_size < 256
    → pkcs7_unpad (pkcs7_pad bytes block_size) block_size ≡ some bytes
unfolding pkcs7_pad
pkcs7_unpad-pkcs7_pad bytes block_size h k = with_pad (block_size - length bytes % block_size) refl
  where
    below : length bytes % block_size < block_size
    below = mod-lt (length bytes) h

    whole : (length bytes + (block_size - length bytes % block_size)) % block_size ≡ 0
    whole =
        sym (mod-add-mod (length bytes) block_size (block_size - length bytes % block_size))
        ∙ (ap (λ x. x % block_size) full ∙ mod_self block_size)
      where
        full : length bytes % block_size + (block_size - length bytes % block_size) ≡ block_size
        full = omega (arith, mod-lt (length bytes) h)

    with_pad :
        (pad : ℕ)
        → block_size - length bytes % block_size ≡ pad
        → pkcs7_unpad (bytes ++ replicate pad (pad % 256)) block_size ≡ some bytes
    with_pad zero e = absurd (omega (arith, below, e))
    with_pad (suc n) e = rw (mod-eq_of_lt {n = suc n} {m = 256} (omega (arith, e, k))) (
        unpad-append bytes n block_size (omega (arith, e))
          (subst (λ p. (length bytes + p) % block_size ≡ 0) e whole))
