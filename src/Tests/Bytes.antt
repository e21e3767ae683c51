-- ===== src/Tests/Bytes.antt =====
-- A message of the Steam wire format.
use rent_auto.Prelude.{[], ◌∷◌, ◌++◌, ◌≡◌, arith}
use rent_auto.Wire.{write_bytes, next, got}
use rent_auto.Wire.RoundTrip.{next-write_bytes}

next-write_bytes_example :
    next (write_bytes [] 1 (b'h' ∷ b'i' ∷ []) ++ (7 ∷ [])) ≡ got 1 2 (b'h' ∷ b'i' ∷ []) 0 (7 ∷ [])
next-write_bytes_example =
    next-write_bytes 1 (b'h' ∷ b'i' ∷ []) (7 ∷ []) (omega arith) (omega arith)
