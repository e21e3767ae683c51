-- ===== src/Wire.antt =====
-- backend/internal/platform/steam/proto.go: the writer and the reader of the protobuf wire format, on lists
-- of bytes. The varints and the little-endian numbers of encoding/binary are written out here.
pub mod Varint
pub mod RoundTrip
use rent_auto.Prelude.{
  ℕ, zero, suc, ◌+◌, ◌-◌, ◌*◌, ◌/◌, ◌%◌, ◌^◌, Bool, true, false, Option, none, some, List, [], ◌∷◌,
  ◌++◌, ltb, eqb, leb, length, take, drop, if◌then◌else◌,
}
use rent_auto.Wire.Varint.{put_uvarint, uvarint}

-- `n` bytes, the lowest first
unfoldable pub put_le : ℕ → ℕ → List ℕ
put_le zero v = []
put_le (suc n) v = (v % 256) ∷ put_le n (v / 256)

unfoldable pub le : List ℕ → ℕ
le [] = 0
le (b ∷ bs) = b + 256 * le bs

-- uint32(field)<<3 | wire
unfoldable pub tag : ℕ → ℕ → List ℕ
tag field wire = put_uvarint 10 (field * 8 % 2 ^ 32 + wire)

unfoldable pub write_u64 : List ℕ → ℕ → ℕ → List ℕ
unfolding tag
write_u64 buf field v = buf ++ (tag field 0 ++ put_uvarint 10 v)

unfoldable pub write_b32 : List ℕ → ℕ → Bool → List ℕ
unfolding write_u64
write_b32 buf field v = if v then write_u64 buf field 1 else buf

-- f32, with the bits of the float
unfoldable pub write_f32 : List ℕ → ℕ → ℕ → List ℕ
unfolding tag put_le
write_f32 buf field bits = buf ++ (tag field 5 ++ put_le 4 bits)

unfoldable pub write_f64 : List ℕ → ℕ → ℕ → List ℕ
unfolding tag put_le
write_f64 buf field v = buf ++ (tag field 1 ++ put_le 8 v)

unfoldable pub write_bytes : List ℕ → ℕ → List ℕ → List ℕ
unfolding tag
write_bytes buf field b = buf ++ (tag field 2 ++ (put_uvarint 10 (length b) ++ b))

-- what `next` returns, with the bytes that are left
pub data Next : Type 0 where
  done bad_key bad_varint bad_fixed64 bad_length bad_fixed32 bad_wire : Next
  got : (field wire : ℕ) (payload : List ℕ) (num : ℕ) (rest : List ℕ) → Next

abbrev pub got_varint : ℕ → Option (ℕ × List ℕ) → Next
got_varint field none = bad_varint
got_varint field (some (v, rest)) = got field 0 [] v rest

abbrev pub got_bytes : ℕ → Option (ℕ × List ℕ) → Next
got_bytes field none = bad_length
got_bytes field (some (l, rest)) =
    if ltb (length rest) l then bad_length else got field 2 (take l rest) 0 (drop l rest)

abbrev pub got_fixed : ℕ → ℕ → ℕ → Next → List ℕ → Next
got_fixed field wire n bad buf =
    if ltb (length buf) n then bad else got field wire [] (le (take n buf)) (drop n buf)

unfoldable pub by_wire : ℕ → ℕ → List ℕ → Next
unfolding le
by_wire field wire buf =
    if eqb wire 0
    then got_varint field (uvarint 10 buf)
    else if eqb wire 1
    then got_fixed field 1 8 bad_fixed64 buf
    else if eqb wire 2
    then got_bytes field (uvarint 10 buf)
    else if eqb wire 5
    then got_fixed field 5 4 bad_fixed32 buf
    else bad_wire

abbrev pub with_key : Option (ℕ × List ℕ) → Next
with_key none = bad_key
with_key (some (key, buf)) = by_wire (key / 8 % 2 ^ 32) (key % 8) buf

unfoldable pub next : List ℕ → Next
unfolding by_wire
next [] = done
next (b ∷ bs) = with_key (uvarint 10 (b ∷ bs))
