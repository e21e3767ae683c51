-- ===== src/Auth/Jwt/Split.antt =====
-- Tokens are taken apart at their dots, and what was put together comes apart again.
use rent_auto.Prelude.{
  ◌≡◌, refl, sym, ap, ◌∙◌, false, List, [], ◌∷◌, ◌++◌, eqb, eqb_iff, Bool-cases, inl, inr, All,
  append_assoc, append-nil,
}
use rent_auto.Auth.Jwt.{Bytes, dot, split_from, split_token}

abbrev pub NoDot : Bytes → Type 0
NoDot bytes = All (λ b. eqb b dot ≡ false) bytes

-- the parts with dots between them
abbrev pub joined : List Bytes → Bytes
joined [] = []
joined (part ∷ []) = part
joined (part ∷ (next ∷ parts)) = part ++ (dot ∷ joined (next ∷ parts))

joined_cons :
    (first part bytes : Bytes)
    → joined (first ∷ split_from part bytes) ≡ first ++ (dot ∷ joined (split_from part bytes))
joined_cons first part [] = refl
joined_cons first part (b ∷ bytes) = elim (Bool-cases (eqb b dot)) [
  | inl h ↦ simp h refl
  | inr h ↦ simp h (joined_cons first (part ++ (b ∷ [])) bytes)
]

joined-split_from : (part bytes : Bytes) → joined (split_from part bytes) ≡ part ++ bytes
joined-split_from part [] = sym (append-nil part)
joined-split_from part (b ∷ bytes) = elim (Bool-cases (eqb b dot)) [
  | inl h ↦ simp h (
      joined_cons part [] bytes
      ∙ (ap (λ xs. part ++ (dot ∷ xs)) (joined-split_from [] bytes)
          ∙ ap (λ x. part ++ (x ∷ bytes)) (sym ((eqb_iff b dot).0 h))))
  | inr h ↦ simp h (joined-split_from (part ++ (b ∷ [])) bytes ∙ append_assoc part (b ∷ []) bytes)
]

-- Nothing of a token is lost: its parts, with the dots between them, are the token.
pub joined-split_token : (t : Bytes) → joined (split_token t) ≡ t
unfolding split_token
joined-split_token t = joined-split_from [] t

split_from-NoDot :
    (part piece rest : Bytes)
    → NoDot piece
    → split_from part (piece ++ (dot ∷ rest)) ≡ (part ++ piece) ∷ split_from [] rest
split_from-NoDot part [] rest _ = simp (append-nil part) refl
split_from-NoDot part (b ∷ piece) rest (h, hs) = simp h (
    split_from-NoDot (part ++ (b ∷ [])) piece rest hs
    ∙ ap (λ p. p ∷ split_from [] rest) (append_assoc part (b ∷ []) piece))

split_from-last : (part piece : Bytes) → NoDot piece → split_from part piece ≡ (part ++ piece) ∷ []
split_from-last part [] _ = simp (append-nil part) refl
split_from-last part (b ∷ piece) (h, hs) = simp h (
    split_from-last (part ++ (b ∷ [])) piece hs
    ∙ ap (λ p. p ∷ []) (append_assoc part (b ∷ []) piece))

-- Three parts without dots, put together with dots, come apart into the same three parts.
pub split_token-joined :
    (a b c : Bytes)
    → NoDot a
    → NoDot b
    → NoDot c
    → split_token ((a ++ (dot ∷ b)) ++ (dot ∷ c)) ≡ a ∷ (b ∷ (c ∷ []))
unfolding split_token
split_token-joined a b c na nb nc =
    ap (split_from []) (append_assoc a (dot ∷ b) (dot ∷ c))
    ∙ (split_from-NoDot [] a (b ++ (dot ∷ c)) na
        ∙ ap (λ xs. a ∷ xs)
            (split_from-NoDot [] b c nb ∙ ap (λ xs. b ∷ xs) (split_from-last [] c nc)))
