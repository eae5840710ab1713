-- ===== src/Http.antt =====
-- The `HTTPException`s that the handlers raise, with their details as data, and the outcome of a
-- handler.
use pothole_detection_server.Prelude.{ℕ, ◌≡◌, refl, ◌⊎◌, inl, inr, Text}

pub data Detail : Type 0 where
  -- rate_limit.py: device, resource, limit, current
  limit_exceeded : Text → Text → ℕ → ℕ → Detail
  -- events.py: size, maximum
  batch_too_large : ℕ → ℕ → Detail
  -- frames.py
  invalid_metadata : Detail
  frame_empty : Detail
  frame_too_large : ℕ → ℕ → Detail
  invalid_magic : Detail
  -- dependencies.py
  missing_device_id : Detail
  missing_version : Detail
  unsupported_version : Text → Detail
  -- main.py: the answer to an exception that nothing handles
  internal_server_error : Detail

pub record HttpException : Type 0 where
  pub status_code : ℕ
  pub detail : Detail

pub data Outcome {ℓ} (A : Type ℓ) : Type ℓ where
  ok : A → Outcome A
  raise : HttpException → Outcome A

pub Outcome-cases {ℓ} :
    {A : Type ℓ} (o : Outcome A) → ((a : A) × (o ≡ ok a)) ⊎ ((e : HttpException) × (o ≡ raise e))
Outcome-cases (ok a) = inl (a, refl)
Outcome-cases (raise e) = inr (e, refl)
