-- ===== src/Events/Validation.antt =====
-- What the validation of a payload gives to the code after it.
use mathlib.Core.Bool.{false≢true}
use pothole_detection_server.Prelude.{
  ◌≡◌, inl, inr, true, Option, some, List, [], ◌∷◌, Text, All, Option-cases, and_left, and_right,
}
use pothole_detection_server.Float.{Float}
use pothole_detection_server.Schema.{DateTime}
use pothole_detection_server.Events.{EventPayload, normalize_ts, validate_timestamp, validate_event}

module _ (fromisoformat : Text → Option DateTime) where
  abbrev pub Parsed : Text → Type 0
  Parsed v = (dt : DateTime) × (fromisoformat (normalize_ts v) ≡ some dt)

  -- Every timestamp can be read.
  abbrev pub Parses : {F : Type 0} → List (EventPayload F) → Type 0
  Parses = All (λ e. Parsed e.ts)

  pub validate_timestamp-Parsed : (v : Text) → validate_timestamp fromisoformat v ≡ true → Parsed v
  unfolding validate_timestamp
  validate_timestamp-Parsed v h = elim (Option-cases (fromisoformat (normalize_ts v))) [
    | inl bad ↦ absurd (false≢true (rw (bad, validate_timestamp) at h))
    | inr parsed ↦ parsed
  ]

  module _ {F : Type 0} ⦃d : Float F⦄ where
    -- What the endpoint hands on: payloads that have passed validation.
    abbrev pub AllValid : List (EventPayload F) → Type 0
    AllValid = All (λ e. validate_event fromisoformat e ≡ true)

    valid_ts :
        (e : EventPayload F)
        → validate_event fromisoformat e ≡ true
        → validate_timestamp fromisoformat e.ts ≡ true
    unfolding validate_event
    valid_ts e h = and_left _ _ (and_right _ _ (and_right _ _ h))

    pub AllValid-Parses : (es : List (EventPayload F)) → AllValid es → Parses es
    AllValid-Parses [] v = tt
    AllValid-Parses (e ∷ es) (h, v) =
        (validate_timestamp-Parsed e.ts (valid_ts e h), AllValid-Parses es v)
