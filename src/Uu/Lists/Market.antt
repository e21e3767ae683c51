-- ===== src/Uu/Lists/Market.antt =====
-- backend/internal/platform/uu/endpoints.go: the prices in the lists, and the offers of the market in a window of deposits.
use rent_auto.Prelude.{
  ℕ, String, Bool, false, ◌&&◌, ◌==◌, Option, none, some, List, [], ◌∷◌, ◌++◌, ℤ, leb, length,
  if◌then◌else◌,
}
use rent_auto.Float.{Double}
use rent_auto.Pricing.{zero_f}
use rent_auto.Delivery.{Reply, failed, replied}
use rent_auto.Uu.{call_env}
use rent_auto.Uu.Endpoints.{read_as}
use rent_auto.Uu.Lists.{Reader, LeaseShelfItem, MarketLeaseItem, market_query}

module _ {W F : Type 0} ⦃double : Double F⦄ where
  -- Deposit, UnitPrice and LongUnitPrice of a MarketLeaseItem
  abbrev pub str_f_deref : Reader W F → Option String → F
  str_f_deref c none = zero_f
  str_f_deref c (some s) = Reader.parse_float c s

  -- LongRent of a LeaseShelfItem
  abbrev pub long_rent : Reader W F → LeaseShelfItem → F
  long_rent c it =
      if it.long_lease_amount == "" then zero_f else Reader.parse_float c it.long_lease_amount

  abbrev pub in_window : Reader W F → F → F → Option String → Bool
  in_window c min_price max_price none = false
  in_window c min_price max_price (some s) =
      Double.lt double min_price (Reader.parse_float c s)
      && Double.lt double (Reader.parse_float c s) max_price

  abbrev pub offers_in :
      Reader W F → F → F → ℕ → List MarketLeaseItem → List MarketLeaseItem → List MarketLeaseItem
  offers_in c min_price max_price cnt [] out = out
  offers_in c min_price max_price cnt (it ∷ items) out =
      let rest =
        offers_in c min_price max_price cnt items
          (if in_window c min_price max_price it.lease_deposit then out ++ (it ∷ []) else out) in
      if leb cnt (length out) then out else rest

  abbrev pub offers_reply :
      Reader W F → F → F → ℕ → Reply (List MarketLeaseItem) → Reply (List MarketLeaseItem)
  offers_reply c min_price max_price cnt (failed err) = failed err
  offers_reply c min_price max_price cnt (replied items) =
      replied (offers_in c min_price max_price cnt items [])

  unfoldable pub get_market_lease_price :
      Reader W F → ℤ → F → F → ℕ → W → W × Reply (List MarketLeaseItem)
  unfolding call_env
  get_market_lease_price c template min_price max_price cnt w =
      let (w', r) =
        call_env (Reader.transport c) (Reader.json c) w "POST"
          "/api/homepage/v3/detail/commodity/list/lease" (market_query template) "market-lease" in
      (
        w',
        offers_reply c min_price max_price cnt
            (read_as "uu: market-lease payload" (Reader.read_market c) r),
      )
