-- ===== src/Eco/Signature.antt =====
-- backend/internal/platform/eco/sign.go: the canonical string that is signed. A map is the list of its entries in
-- the order in which an iteration gives them; keys are not repeated, so that every sorting algorithm gives the
-- result of this insertion sort.
pub mod Order
use rent_auto.Prelude.{
  String, Bool, true, false, not, ◌==◌, List, [], ◌∷◌, ℤ, if◌then◌else◌, text_append,
}

-- the kinds of values that canonicalValue tells apart; `composite` is any other, with its compact JSON
pub data Value (F : Type 0) : Type 0 where
  nil : Value F
  text : String → Value F
  boolean : Bool → Value F
  integer : ℤ → Value F
  float : F → Value F
  composite : String → Value F

-- the byte order of strings, strings.ToLower, strconv.FormatInt and strconv.FormatFloat
pub record Texts (F : Type 0) : Type 0 where
  pub lt : String → String → Bool
  pub lower : String → String
  pub format_int : ℤ → String
  pub format_float : F → String

module _ {F : Type 0} where
  abbrev pub is_omitted : Value F → Bool
  is_omitted nil = true
  is_omitted (text s) = s == ""
  is_omitted _ = false

  abbrev pub kept : List (String × Value F) → List (String × Value F)
  kept [] = []
  kept ((k, v) ∷ params) = if is_omitted v then kept params else (k, v) ∷ kept params

  -- the comparison of the keys
  unfoldable pub less : Texts F → String → String → Bool
  less t a b =
      if Texts.lower t a == Texts.lower t b
      then Texts.lt t a b
      else Texts.lt t (Texts.lower t a) (Texts.lower t b)

  abbrev pub insert :
      (String → String → Bool)
      → String × Value F
      → List (String × Value F)
      → List (String × Value F)
  insert lt e [] = e ∷ []
  insert lt e (f ∷ l) = if lt e.0 f.0 then e ∷ (f ∷ l) else f ∷ insert lt e l

  abbrev pub sort : (String → String → Bool) → List (String × Value F) → List (String × Value F)
  sort lt [] = []
  sort lt (e ∷ l) = insert lt e (sort lt l)

  abbrev pub canonical_value : Texts F → Value F → String
  canonical_value t nil = "null"
  canonical_value t (text s) = s
  canonical_value t (boolean b) = if b then "true" else "false"
  canonical_value t (integer n) = Texts.format_int t n
  canonical_value t (float x) = Texts.format_float t x
  canonical_value t (composite json) = json

  abbrev pub part : Texts F → String × Value F → String
  part t (k, v) = text_append k (text_append "=" (canonical_value t v))

  abbrev pub joined : Texts F → List (String × Value F) → String
  joined t [] = ""
  joined t (e ∷ []) = part t e
  joined t (e ∷ (f ∷ l)) = text_append (part t e) (text_append "&" (joined t (f ∷ l)))

  unfoldable pub sign_string : Texts F → List (String × Value F) → String
  unfolding less
  sign_string t params = joined t (sort (less t) (kept params))
