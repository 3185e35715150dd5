-- ===== src/Recovery/Gcp/RoundTrip.antt =====
-- A value survives its way through the library's values (mpc-recovery/src/gcp/value.rs).
use mpc_recovery.Prelude.{◌≡◌, refl, ap, some}
use mpc_recovery.Recovery.Gcp.{
  Value, Values, Properties, boolean_value, integer_value, double_value, key_value, string_value,
  blob_value, geo_point_value, entity_value, array_value, from_api, from_each, from_all, to_api,
  to_each, to_all, map_field,
}

mutual
  unfolding from_api from_each from_all to_api to_each to_all

  from_api-to_api : (v : Value) → from_api (to_api v) ≡ some v
  from_api-to_api (boolean_value b) = refl
  from_api-to_api (integer_value n) = refl
  from_api-to_api (double_value x) = refl
  from_api-to_api (key_value k) = refl
  from_api-to_api (string_value s) = refl
  from_api-to_api (blob_value b) = refl
  from_api-to_api (geo_point_value latitude longitude) = refl
  from_api-to_api (entity_value key ps) = ap (map_field (entity_value key)) (from_each-to_each ps)
  from_api-to_api (array_value vs) = ap (map_field array_value) (from_all-to_all vs)

  pub from_each-to_each : (ps : Properties) → from_each (to_each ps) ≡ some ps
  from_each-to_each Properties.end = refl
  from_each-to_each (Properties.property name v ps) =
      rw (from_api-to_api v, from_each-to_each ps) refl

  from_all-to_all : (vs : Values) → from_all (to_all vs) ≡ some vs
  from_all-to_all Values.nil = refl
  from_all-to_all (Values.cons v vs) = rw (from_api-to_api v, from_all-to_all vs) refl

-- Each value that is converted to a value of the library is read back from it as it was.
pub value_comes_back : (v : Value) → from_api (to_api v) ≡ some v
value_comes_back v = from_api-to_api v
