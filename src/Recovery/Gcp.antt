-- ===== src/Recovery/Gcp.antt =====
-- mpc-recovery/src/gcp/value.rs: the values of the datastore, and their conversion from and to those
-- of the library google_datastore1.
pub mod RoundTrip
pub mod Records
pub mod Storing
use mpc_recovery.Prelude.{ℕ, Bool, List, [], ◌∷◌, Option, none, some}
use mpc_recovery.Recovery.Oauth.{Text}

pub record PathElement : Type 0 where
  pub kind : Option Text
  pub name : Option Text
  pub id : Option ℕ

-- `google_datastore1::api::Key`; a partition stands as a number.
pub record Key : Type 0 where
  pub path : Option (List PathElement)
  pub partition_id : Option ℕ

abbrev pub default_key : Key
default_key = record { path = none; partition_id = none }

pub record LatLng : Type 0 where
  pub latitude : Option ℕ
  pub longitude : Option ℕ

-- An integer and a floating point number stand as the numbers of their bits, so zero is zero.
mutual
  pub data Value : Type 0 where
    boolean_value : Bool → Value
    integer_value : ℕ → Value
    double_value : ℕ → Value
    key_value : Key → Value
    string_value : Text → Value
    blob_value : List ℕ → Value
    geo_point_value : ℕ → ℕ → Value
    entity_value : Key → Properties → Value
    array_value : Values → Value

  pub data Values : Type 0 where
    nil : Values
    cons : Value → Values → Values

  -- The entries of the map, in the order in which it iterates.
  pub data Properties : Type 0 where
    end : Properties
    property : Text → Value → Properties → Properties

-- The scalar fields of `google_datastore1::api::Value`.
pub record Scalars : Type 0 where
  pub boolean_value : Option Bool
  pub integer_value : Option ℕ
  pub double_value : Option ℕ
  pub key_value : Option Key
  pub string_value : Option Text
  pub blob_value : Option (List ℕ)
  pub geo_point_value : Option LatLng

mutual
  -- `google_datastore1::api::Value`, with its fields `entity_value` and `array_value`
  pub data ApiValue : Type 0 where
    api : Scalars → MaybeEntity → MaybeArray → ApiValue

  pub data MaybeEntity : Type 0 where
    no_entity : MaybeEntity
    entity : Option Key → MaybeProperties → MaybeEntity

  pub data MaybeProperties : Type 0 where
    no_properties : MaybeProperties
    properties : ApiProperties → MaybeProperties

  pub data MaybeArray : Type 0 where
    no_array : MaybeArray
    array : MaybeValues → MaybeArray

  pub data MaybeValues : Type 0 where
    no_values : MaybeValues
    values : ApiValues → MaybeValues

  pub data ApiValues : Type 0 where
    nil : ApiValues
    cons : ApiValue → ApiValues → ApiValues

  pub data ApiProperties : Type 0 where
    end : ApiProperties
    property : Text → ApiValue → ApiProperties → ApiProperties

abbrev pub default_scalars : Scalars
default_scalars = record {
  boolean_value = none;
  integer_value = none;
  double_value = none;
  key_value = none;
  string_value = none;
  blob_value = none;
  geo_point_value = none;
}

abbrev pub unwrap_or : {A : Type 0} → A → Option A → A
unwrap_or d none = d
unwrap_or d (some a) = a

-- The value of the first of the scalar fields that is there, in the order of `From`.
unfoldable pub from_scalars : Scalars → Option Value
from_scalars v = elim v.boolean_value [
  | some b ↦ some (boolean_value b)
  | none ↦ elim v.integer_value [
    | some n ↦ some (integer_value n)
    | none ↦ elim v.double_value [
      | some x ↦ some (double_value x)
      | none ↦ elim v.key_value [
        | some k ↦ some (key_value k)
        | none ↦ elim v.string_value [
          | some s ↦ some (string_value s)
          | none ↦ elim v.blob_value [
            | some b ↦ some (blob_value b)
            | none ↦ elim v.geo_point_value [
              | some p ↦ some (geo_point_value (unwrap_or 0 p.latitude) (unwrap_or 0 p.longitude))
              | none ↦ none
            ]
          ]
        ]
      ]
    ]
  ]
]

-- A field that is not there, or its value; the value is `none` where it panics (`unimplemented!`).
abbrev pub or_field : Option (Option Value) → Option Value → Option Value
or_field none rest = rest
or_field (some v) rest = v

abbrev pub or_scalar : Option Value → Option Value → Option Value
or_scalar none rest = rest
or_scalar (some v) rest = some v

abbrev pub map_field : {A B : Type 0} → (A → B) → Option A → Option B
map_field f none = none
map_field f (some a) = some (f a)

abbrev pub cons_value : Option Value → Option Values → Option Values
cons_value none vs = none
cons_value (some v) vs = map_field (cons v) vs

abbrev pub cons_property : Text → Option Value → Option Properties → Option Properties
cons_property name none ps = none
cons_property name (some v) ps = map_field (property name v) ps

unfoldable mutual
  unfolding from_scalars

  -- `From<google_datastore1::api::Value> for Value`
  pub from_api : ApiValue → Option Value
  from_api (api scalars e a) =
      or_scalar (from_scalars scalars) (or_field (from_entity e) (or_field (from_array a) none))

  pub from_entity : MaybeEntity → Option (Option Value)
  from_entity no_entity = none
  from_entity (entity key ps) =
      some (map_field (entity_value (unwrap_or default_key key)) (from_properties ps))

  pub from_properties : MaybeProperties → Option Properties
  from_properties no_properties = some end
  from_properties (properties ps) = from_each ps

  pub from_each : ApiProperties → Option Properties
  from_each end = some end
  from_each (property name v ps) = cons_property name (from_api v) (from_each ps)

  pub from_array : MaybeArray → Option (Option Value)
  from_array no_array = none
  from_array (array vs) = some (map_field array_value (from_values vs))

  pub from_values : MaybeValues → Option Values
  from_values no_values = some nil
  from_values (values vs) = from_all vs

  pub from_all : ApiValues → Option Values
  from_all nil = some nil
  from_all (cons v vs) = cons_value (from_api v) (from_all vs)

abbrev pub scalar : Scalars → ApiValue
scalar s = api s no_entity no_array

unfoldable mutual
  unfolding from_scalars

  -- `FromValue for google_datastore1::api::Value`, which always succeeds
  pub to_api : Value → ApiValue
  to_api (boolean_value b) = scalar (record default_scalars { boolean_value = some b })
  to_api (integer_value n) = scalar (record default_scalars { integer_value = some n })
  to_api (double_value x) = scalar (record default_scalars { double_value = some x })
  to_api (key_value k) = scalar (record default_scalars { key_value = some k })
  to_api (string_value s) = scalar (record default_scalars { string_value = some s })
  to_api (blob_value b) = scalar (record default_scalars { blob_value = some b })
  to_api (geo_point_value latitude longitude) = scalar (record default_scalars {
    geo_point_value = some (record { latitude = some latitude; longitude = some longitude });
  })
  to_api (entity_value key ps) =
      api default_scalars (entity (some key) (properties (to_each ps))) no_array
  to_api (array_value vs) = api default_scalars no_entity (array (values (to_all vs)))

  pub to_each : Properties → ApiProperties
  to_each end = end
  to_each (property name v ps) = property name (to_api v) (to_each ps)

  pub to_all : Values → ApiValues
  to_all nil = nil
  to_all (cons v vs) = cons (to_api v) (to_all vs)

-- `FromValue for Entity`: `none` is the error for a value that is not an entity.
unfoldable pub to_entity : Value → Option (Key × ApiProperties)
unfolding to_each
to_entity (entity_value key ps) = some (key, to_each ps)
to_entity _ = none

-- `IntoValue for Entity`
unfoldable pub entity_into_value : Key × ApiProperties → Option Value
unfolding from_each
entity_into_value (key, ps) = map_field (entity_value key) (from_each ps)
