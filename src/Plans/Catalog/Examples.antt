-- ===== src/Plans/Catalog/Examples.antt =====
-- The catalog at the prices that the service is deployed with, and the theorems at it.
use de_box_asset_alert.Prelude.{◌≡◌, refl, ◌≢◌, ok, eq_iff, arith}
use de_box_asset_alert.Plans.Types.{free}
use de_box_asset_alert.Plans.Catalog.{Catalog, make_free, make_standard, make_professional, get}

abbrev deployed : Catalog
deployed = record {
  free_plan = make_free "USDT";
  standard_plan = make_standard "5" 30 "USDT";
  professional_plan = make_professional "USDT";
}

get_standard : get deployed "standard" ≡ ok deployed.standard_plan
unfolding get make_standard
get_standard = refl

standard_paid : deployed.standard_plan.code ≢ free
unfolding make_standard
standard_paid e = ground (arith, eq_iff "standard" "free")
