-- ===== src/Events.antt =====
-- app/models/__init__.py and app/services/event_service.py: the payload of an event, its
-- validation, and the insertion of a batch.
pub mod Validation
pub mod Insert
pub mod Faults
pub mod Ids
pub mod Changes
mod Examples
use pothole_detection_server.Prelude.{
  ℕ, ◌≤◌, Bool, true, false, ◌&&◌, Option, none, some, List, [], ◌∷◌, ◌++◌, leb, ◌==◌,
  if◌then◌else◌, Text, codes, length, same,
}
use pothole_detection_server.Float.{Float, zero_f, at_least, between}
use pothole_detection_server.Schema.{DateTime, Observation, lookup_observation}

pub record EventPayload (F : Type 0) : Type 0 where
  pub client_id : Text
  pub schema_version : ℕ
  pub ts : Text
  pub lat : F
  pub lon : F
  pub speed_mps : F
  pub bearing_deg : F
  pub speed_accuracy_mps : Option F
  pub accel_max_g : F
  pub accel_std : F
  pub magnitude : F
  pub gbar_in_max : Option F
  pub time_in_max : Option F
  pub time_in_min : Option F
  pub confidence : F
  pub raw_window_b64 : Option Text
  pub visual_confirmed : Option Bool
  pub frame_client_id : Option Text

pub record RejectedEvent : Type 0 where
  pub client_id : Text
  pub reason : Text

abbrev pub ends_with_z : Text → Bool
ends_with_z [] = false
ends_with_z (c ∷ []) = c == b'Z'
ends_with_z (c ∷ c' ∷ v) = ends_with_z (c' ∷ v)

-- `v.replace("Z", "+00:00")`, which replaces each Z.
abbrev pub replace_z : Text → Text
replace_z [] = []
replace_z (c ∷ v) = (if c == b'Z' then codes "+00:00" else c ∷ []) ++ replace_z v

unfoldable pub normalize_ts : Text → Text
normalize_ts v = if ends_with_z v then replace_z v else v

-- `None` passes a constraint on an optional field.
abbrev pub if_given {ℓ} : {A : Type ℓ} → (A → Bool) → Option A → Bool
if_given p none = true
if_given p (some a) = p a

-- `datetime.fromisoformat`, where `none` is a ValueError
module _ (fromisoformat : Text → Option DateTime) where
  -- The comparison with the clock leads to `pass` on one side and to nothing on the other.
  unfoldable pub validate_timestamp : Text → Bool
  validate_timestamp v = elim (fromisoformat (normalize_ts v)) [
    | none ↦ false
    | some dt ↦ dt.has_tzinfo
  ]

  module _ {F : Type 0} ⦃d : Float F⦄ where
    -- The `Field` constraints and the validator of `EventPayload`.
    unfoldable pub validate_event : EventPayload F → Bool
    unfolding validate_timestamp
    validate_event p =
        (leb 1 (length p.client_id) && leb (length p.client_id) 64)
        && ((leb 1 p.schema_version && leb p.schema_version 100)
            && (validate_timestamp p.ts
                && (between (d.neg (d.of_nat 90)) (d.of_nat 90) p.lat
                    && (between (d.neg (d.of_nat 180)) (d.of_nat 180) p.lon
                        && (between zero_f (d.of_nat 200) p.speed_mps
                            && (between zero_f (d.of_nat 360) p.bearing_deg
                                && (if_given (between zero_f (d.of_nat 200)) p.speed_accuracy_mps
                                    && (between (d.neg (d.of_nat 50)) (d.of_nat 50) p.accel_max_g
                                        && (between zero_f (d.of_nat 100) p.accel_std
                                            && (between zero_f (d.of_nat 500) p.magnitude
                                                && (if_given (between zero_f (d.of_nat 500))
                                                      p.gbar_in_max
                                                    && (if_given (at_least zero_f) p.time_in_max
                                                        && (if_given (at_least zero_f) p.time_in_min
                                                            && (between zero_f (d.of_nat 1)
                                                            p.confidence
                                                            && (if_given
                                                            (λ w. leb (length w) 50_000)
                                                            p.raw_window_b64
                                                            && if_given (λ c. leb (length c) 64)
                                                            p.frame_client_id)))))))))))))))

    unfoldable pub validate_all : List (EventPayload F) → Bool
    validate_all [] = true
    validate_all (p ∷ ps) = validate_event p && validate_all ps

    -- The `Field` constraint of `EventBatchRequest`, and its events.
    unfoldable pub validate_batch : List (EventPayload F) → Bool
    validate_batch ps = leb 1 (length ps) && (leb (length ps) 100 && validate_all ps)

-- A transaction of PostgreSQL: the rows it sees, and whether a statement of it has failed.
pub record Transaction (F : Type 0) : Type 0 where
  pub rows : List (Observation F)
  pub aborted : Bool

-- How an `execute` of the loop fails: with a PostgresError, or with another exception, such as a
-- timeout or a lost connection.
pub data Refusal : Type 0 where
  postgres_error : Text → Refusal
  other_error : Refusal

-- The error of a statement in a transaction that has failed.
abbrev pub in_failed_transaction : Text
in_failed_transaction =
    codes "current transaction is aborted, commands ignored until end of transaction block"

module _ {F : Type 0} where
  -- ON CONFLICT (client_id) DO NOTHING
  pub insert_or_skip : List (Observation F) → Observation F → List (Observation F)
  insert_or_skip rows r = elim (lookup_observation r.client_id rows) [
    | none ↦ rows ++ (r ∷ [])
    | some _ ↦ rows
  ]

  -- COMMIT of a transaction that has failed rolls it back.
  pub commit : List (Observation F) → Transaction F → List (Observation F)
  commit before tx = if tx.aborted then before else tx.rows

  -- The arguments of `_INSERT_EVENT_SQL` for an event of device `device_id` received at `now`.
  unfoldable pub event_row : Text → ℕ → EventPayload F → DateTime → Observation F
  event_row device_id now e ts_dt = record {
    client_id = e.client_id;
    device_id = device_id;
    asset_type = codes "pothole";
    schema_version = e.schema_version;
    ts_utc = ts_dt.instant;
    geom = (e.lon, e.lat);
    speed_mps = some e.speed_mps;
    bearing_deg = some e.bearing_deg;
    speed_accuracy_mps = e.speed_accuracy_mps;
    accel_max_g = some e.accel_max_g;
    accel_std = some e.accel_std;
    magnitude = some e.magnitude;
    gbar_in_max = e.gbar_in_max;
    time_in_max = e.time_in_max;
    time_in_min = e.time_in_min;
    confidence = e.confidence;
    raw_window_b64 = e.raw_window_b64;
    visual_confirmed = e.visual_confirmed;
    frame_client_id = e.frame_client_id;
    received_at = now;
    sensor_class = none;
    sensor_p_pothole = none;
    sensor_severity = none;
    sensor_is_outlier = none;
    sensor_model_version = none;
    scored_at = none;
  }

-- `refuses` is the error with which the `execute` of a row fails, if it does.
module _ (fromisoformat : Text → Option DateTime) {F : Type 0}
    (refuses : List (Observation F) → Observation F → Option Refusal) where
  pub execute_insert : Transaction F → Observation F → Option Refusal × Transaction F
  unfolding insert_or_skip
  execute_insert tx r =
      if tx.aborted
      then (some (postgres_error in_failed_transaction), tx)
      else elim (refuses tx.rows r) [
        | some e ↦ (some e, record tx { aborted = true })
        | none ↦ (none, record tx { rows = insert_or_skip tx.rows r })
      ]

  module _ (device_id : Text) (now : ℕ) where
    -- The loop over the events, with `accepted` and `rejected`; `none` is an exception
    -- that it does not catch: a ValueError of `fromisoformat`, or one that is no PostgresError.
    pub insert_loop :
        List (EventPayload F)
        → Transaction F
        → List Text
        → List RejectedEvent
        → Option (List Text × List RejectedEvent × Transaction F)
    unfolding execute_insert
    insert_loop [] tx accepted rejected = some (accepted, rejected, tx)
    insert_loop (e ∷ es) tx accepted rejected = elim (fromisoformat (normalize_ts e.ts)) [
      | none ↦ none
      | some ts_dt ↦
          let (error, tx') = execute_insert tx (event_row device_id now e ts_dt) in
          elim error [
            | none ↦ insert_loop es tx' (accepted ++ (e.client_id ∷ [])) rejected
            | some refusal ↦ elim refusal [
              | other_error ↦ none
              | postgres_error reason ↦
                  insert_loop es tx' accepted
                    (rejected ++ (record { client_id = e.client_id; reason = reason } ∷ []))
            ]
          ]
    ]

    -- The result, where `none` is the exception, and the table after the transaction. The COMMIT
    -- itself does not fail here.
    pub insert_events :
        List (EventPayload F)
        → List (Observation F)
        → Option (List Text × List RejectedEvent) × List (Observation F)
    unfolding insert_loop commit
    insert_events events table =
        elim (insert_loop events (record { rows = table; aborted = false }) [] []) [
          | none ↦ (none, table)
          | some (accepted, rejected, tx) ↦ (some (accepted, rejected), commit table tx)
        ]
