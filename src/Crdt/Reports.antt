-- ===== src/Crdt/Reports.antt =====
-- src/sync/crdt.rs: `Position` and `HealthStatus` with their bytes. An `f32` is its bit pattern, and the
-- tests on it are those of IEEE 754.
use peat_btle.Prelude.{
  ℕ, ◌+◌, ◌/◌, ◌%◌, ◌^◌, Bool, not, ◌&&◌, Option, none, some, List, [], ◌∷◌, ◌++◌, ltb, leb, ◌==◌,
  if◌then◌else◌, length, get_or, slice,
}
use peat_btle.Prelude.Bytes.{le_bytes, from_le_bytes}

pub record Position : Type 0 where
  pub latitude : ℕ
  pub longitude : ℕ
  pub altitude : Option ℕ
  pub accuracy : Option ℕ

pub record HealthStatus : Type 0 where
  pub battery_percent : ℕ
  pub heart_rate : Option ℕ
  pub activity : ℕ
  pub alerts : ℕ

-- Exponent and magnitude of a bit pattern.
abbrev pub is_finite : ℕ → Bool
is_finite x = not (x / 2 ^ 23 % 256 == 255)

abbrev pub magnitude : ℕ → ℕ
magnitude x = x % 2 ^ 31

abbrev pub is_negative : ℕ → Bool
is_negative x = leb (2 ^ 31) x

-- The bits of 90, 180, 1000 and 100000.
abbrev pub bits_90 : ℕ
bits_90 = 0x42b40000

abbrev pub bits_180 : ℕ
bits_180 = 0x43340000

abbrev pub bits_1000 : ℕ
bits_1000 = 0x447a0000

abbrev pub bits_100000 : ℕ
bits_100000 = 0x47c35000

-- The tests of `Position::decode` on a latitude, a longitude, an altitude and an accuracy.
unfoldable pub latitude_ok : ℕ → Bool
latitude_ok x = is_finite x && leb (magnitude x) bits_90

unfoldable pub longitude_ok : ℕ → Bool
longitude_ok x = is_finite x && leb (magnitude x) bits_180

unfoldable pub altitude_ok : ℕ → Bool
altitude_ok x = is_finite x && leb (magnitude x) (if is_negative x then bits_1000 else bits_100000)

unfoldable pub accuracy_ok : ℕ → Bool
accuracy_ok x = is_finite x && not (is_negative x && ltb 0 (magnitude x))

abbrev pub word_of : Option ℕ → List ℕ
word_of none = []
word_of (some x) = le_bytes 4 x

-- The flags: bit 0 for an altitude, bit 1 for an accuracy.
abbrev pub flag_of : Option ℕ → ℕ → ℕ
flag_of none bit = 0
flag_of (some x) bit = bit

unfoldable pub encode_position : Position → List ℕ
encode_position p =
    le_bytes 4 p.latitude
    ++ (le_bytes 4 p.longitude
        ++ ((flag_of p.altitude 1 + flag_of p.accuracy 2)
            ∷ (word_of p.altitude ++ word_of p.accuracy)))

-- An optional field: whether the flag is set, the test, the offset.
unfoldable pub read_field : Bool → (ℕ → Bool) → List ℕ → ℕ → Option (Option ℕ)
read_field flag ok bytes offset =
    let word = from_le_bytes (slice bytes (offset + 0) (offset + 4)) in
    if not flag
    then some none
    else if ltb (length bytes) (offset + 4)
    then none
    else if not (ok word)
    then none
    else some (some word)

-- The end of `decode`: the accuracy stands behind the altitude, if that is there.
unfoldable pub read_accuracy : List ℕ → ℕ → ℕ → ℕ → Option ℕ → Option Position
read_accuracy bytes flags latitude longitude altitude =
    elim (read_field (flags / 2 % 2 == 1) accuracy_ok bytes
      (elim altitude [ none ↦ 9 | some _ ↦ 13 ])) [
        | none ↦ none
        | some accuracy ↦ some (record {
          latitude = latitude;
          longitude = longitude;
          altitude = altitude;
          accuracy = accuracy;
        })
      ]

unfoldable pub decode_position : List ℕ → Option Position
decode_position bytes =
    let latitude : ℕ = from_le_bytes (slice bytes 0 4) in
    let longitude : ℕ = from_le_bytes (slice bytes 4 8) in
    let flags : ℕ = get_or bytes 8 0 in
    if ltb (length bytes) 9
    then none
    else if not (latitude_ok latitude && longitude_ok longitude)
    then none
    else elim (read_field (flags % 2 == 1) altitude_ok bytes 9) [
      | none ↦ none
      | some altitude ↦ read_accuracy bytes flags latitude longitude altitude
    ]

abbrev pub or_zero : Option ℕ → ℕ
or_zero none = 0
or_zero (some x) = x

unfoldable pub encode_health : HealthStatus → List ℕ
encode_health s = s.battery_percent ∷ s.activity ∷ s.alerts ∷ or_zero s.heart_rate ∷ []

unfoldable pub decode_health : List ℕ → Option HealthStatus
decode_health bytes =
    let battery : ℕ = get_or bytes 0 0 in
    let activity : ℕ = get_or bytes 1 0 in
    let alerts : ℕ = get_or bytes 2 0 in
    let rate : ℕ = get_or bytes 3 0 in
    let status : HealthStatus = record {
      battery_percent = battery;
      heart_rate = none;
      activity = activity;
      alerts = alerts;
    } in
    if ltb (length bytes) 4
    then none
    else if ltb 100 battery
    then none
    else if ltb 3 activity
    then none
    else if rate == 0
    then some status
    else if not (leb 20 rate && leb rate 250)
    then none
    else some (record status { heart_rate = some rate })
