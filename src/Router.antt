-- ===== src/Router.antt =====
-- `Router` of crates/aggregator-logic/src/router.rs: the zone of a reading, and its dissemination to the Redis streams and
-- the two history sinks, with the one retry over a rebuilt connection. serde_json, the stream cipher, the standard
-- hasher and the floats are parameters; what becomes of each command is an argument. A stream holds the texts of its
-- `event` fields; that Redis may trim a stream at its approximate cap is left out.
pub mod Points
pub mod Zoning
pub mod Delivery
pub mod Arrival
pub mod Tests
use gridtokenx_aggregator_br.Base.{
  ℕ, ◌%◌, ◌^◌, Bool, true, false, not, Option, none, some, List, [], ◌∷◌, ◌++◌, ltb, if◌then◌else◌,
  ◌==◌, nat_eq, list_eq,
}
use gridtokenx_aggregator_br.Base.Dict.{Dict, lookup, insert}
use gridtokenx_aggregator_br.Base.Text.{codes}
use gridtokenx_aggregator_br.Base.Print.{digits, value, is_digit}
use gridtokenx_aggregator_br.Billing.Bin.{Text, F64, unwrap_or}
use gridtokenx_aggregator_br.Redis.{
  Fate, applied, refused, reply_lost, takes_effect, status, ok, err,
}
use gridtokenx_aggregator_br.Stream.Readings.{
  DeviceType, smart_meter, ev_charger, battery, target_stream, DeviceReading,
}
use gridtokenx_aggregator_br.Router.Points.{
  Numbers, TelemetryPoint, ReadingRow, reading_to_point, reading_to_row,
}

-- `chars().skip_while(|c| !c.is_ascii_digit())`.
unfoldable pub suffix_of : Text → Text
suffix_of [] = []
suffix_of (c ∷ z) = let rest = suffix_of z in if is_digit c then c ∷ z else rest

-- `parse::<usize>` of a text that starts with a digit.
unfoldable pub parse_usize : Text → Option ℕ
unfolding value
parse_usize [] = none
parse_usize (c ∷ s) = elim (value 0 (c ∷ s)) [
  | none ↦ none
  | some n ↦ if ltb n (2 ^ 64) then some n else none
]

module _ (hash : Text → ℕ) where
  -- The index that the digits of a zone code name, if they do.
  unfoldable pub named_zone : ℕ → Text → Option ℕ
  unfolding suffix_of parse_usize
  named_zone num_zones zcode = elim (parse_usize (suffix_of zcode)) [
    | none ↦ none
    | some idx ↦ if ltb idx num_zones then some idx else none
  ]

  unfoldable pub zone_index : ℕ → Option Text → Text → ℕ
  zone_index num_zones none serial = hash serial % num_zones
  zone_index num_zones (some zcode) serial = elim (named_zone num_zones zcode) [
    | some idx ↦ idx
    | none ↦ hash zcode % num_zones
  ]

  -- With no zones the remainder panics, so there is at least one.
  abbrev pub calculate_zone_index : ℕ → DeviceReading → ℕ
  calculate_zone_index num_zones reading =
      zone_index num_zones reading.zone_code reading.serial_number

-- An index has at most 20 digits.
unfoldable pub zone_stream : ℕ → Text
unfolding digits
zone_stream idx = codes "gridtokenx:events:zone_" ++ digits 20 idx

unfoldable pub event_type_name : DeviceType → Text
event_type_name smart_meter = codes "SmartMeterReading"
event_type_name ev_charger = codes "EvCharging"
event_type_name battery = codes "BatteryStateUpdate"

-- `serde_json` and the stream cipher, which draws its nonce.
pub record Codec : Type 0 where
  pub to_vec : DeviceReading → Option Text
  pub plain_envelope : Text → DeviceReading → Option Text
  pub enc_envelope : Text → Text → Text → Option Text
  pub stream_cipher : Option (Text → Text → Option (Text × Text))
  pub hash : Text → ℕ

pub record RouterSettings : Type 0 where
  pub num_zones : ℕ
  pub has_influx : Bool
  pub has_pg_readings : Bool

-- Whether a connection manager is cached, the streams, and what the two sinks were given.
pub record RouterState : Type 0 where
  pub cached : Bool
  pub streams : Dict Text (List Text)
  pub points : List TelemetryPoint
  pub rows : List ReadingRow

-- Whether a connection can be built, at first and after the invalidation, and the fates of the three commands.
pub record Weather : Type 0 where
  pub connects : Bool
  pub zone_add : Fate
  pub reconnects : Bool
  pub zone_add_again : Fate
  pub unified_add : Fate

pub data Disseminated : Type 0 where
  sent failed : Disseminated

-- The entries of a stream.
abbrev pub entries : Text → Dict Text (List Text) → List Text
entries name streams = unwrap_or (lookup name streams) []

-- XADD.
unfoldable pub xadd : Fate → Text → Text → RouterState → RouterState
xadd fate name json s =
    if takes_effect fate
    then record s { streams = insert name (entries name s.streams ++ (json ∷ [])) s.streams }
    else s

abbrev pub is_ok : Fate → Bool
is_ok applied = true
is_ok _ = false

abbrev pub sealed_envelope : Codec → Text → Option (Text × Text) → Option Text
sealed_envelope c kind none = none
sealed_envelope c kind (some (nonce, ciphertext)) = c.enc_envelope kind nonce ciphertext

unfoldable pub encode : Codec → DeviceReading → Option Text
unfolding event_type_name
encode c r =
    let kind = event_type_name r.device_type in
    elim c.stream_cipher [
      | none ↦ c.plain_envelope kind r
      | some encrypt ↦ elim (c.to_vec r) [
        | none ↦ none
        | some payload ↦ sealed_envelope c kind (encrypt payload kind)
      ]
    ]

module _ (c : Codec) (nums : Numbers) (settings : RouterSettings) where
  abbrev pub record_point : DeviceReading → RouterState → RouterState
  record_point r s =
      if settings.has_influx
      then elim (reading_to_point nums r) [
        | none ↦ s
        | some point ↦ record s { points = s.points ++ (point ∷ []) }
      ]
      else s

  abbrev pub record_row : DeviceReading → RouterState → RouterState
  record_row r s =
      if settings.has_pg_readings
      then elim (reading_to_row nums r) [
        | none ↦ s
        | some row ↦ record s { rows = s.rows ++ (row ∷ []) }
      ]
      else s

  -- After the entry stands in the zone's stream: the unified stream, whose result is ignored, and the sinks.
  unfoldable pub after_zone :
      Weather → DeviceReading → Text → RouterState → Disseminated × RouterState
  unfolding xadd
  after_zone w r json s =
      let unified = target_stream r.device_type in
      let s' =
        if not (unified == zone_stream (calculate_zone_index c.hash settings.num_zones r))
        then xadd w.unified_add unified json s
        else s in
      (sent, record_row r (record_point r s'))

  abbrev pub on_status :
      Weather → DeviceReading → Text → RouterState → Bool → Disseminated × RouterState
  on_status w r json s true = after_zone w r json s
  on_status w r json s false = (failed, s)

  -- The retry over a rebuilt connection; one that cannot be built leaves the cache empty.
  unfoldable pub retry :
      Weather → DeviceReading → Text → Text → RouterState → Disseminated × RouterState
  unfolding xadd after_zone
  retry w r name json s =
      if w.reconnects
      then on_status w r json (xadd w.zone_add_again name json (record s { cached = true }))
          (is_ok w.zone_add_again)
      else (failed, record s { cached = false })

  unfoldable pub publish :
      Weather → DeviceReading → Text → Text → RouterState → Disseminated × RouterState
  unfolding xadd after_zone retry
  publish w r name json s =
      let s' = xadd w.zone_add name json s in
      if is_ok w.zone_add then after_zone w r json s' else retry w r name json s'

  abbrev pub publish_encoded :
      Weather → DeviceReading → Option Text → RouterState → Disseminated × RouterState
  publish_encoded w r none s = (failed, s)
  publish_encoded w r (some json) s =
      publish w r (zone_stream (calculate_zone_index c.hash settings.num_zones r)) json s

  unfoldable pub disseminate : Weather → DeviceReading → RouterState → Disseminated × RouterState
  unfolding publish encode
  disseminate w r s =
      if s.cached
      then publish_encoded w r (encode c r) s
      else if w.connects
      then publish_encoded w r (encode c r) (record s { cached = true })
      else (failed, s)
