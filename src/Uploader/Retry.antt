-- ===== src/Uploader/Retry.antt =====
-- The delays between the attempts of a job: `retry_delay` and the plateau constants of
-- angeld/src/uploader.rs.
use omnidrive.Prelude.{ℕ, ◌*◌, ◌^◌, ◌≤◌, leb, min, max, if◌then◌else◌, arith}
use native.Mathlib.Nat.{pow-le-pow_right, mul-le-mul_left}
use omnidrive.Uploader.{WorkerConfig, retry_delay, backoff, backoff_exponent, duration_max}

pow_mono : (a b : ℕ) → a ≤ b → 2 ^ a ≤ 2 ^ b
pow_mono a b h = pow-le-pow_right (omega arith) h

backoff-le : (base limit e : ℕ) → backoff base limit e ≤ limit
unfolding backoff
backoff-le base limit e = ground arith

scaled_mono : (base d e : ℕ) → d ≤ e → base * 2 ^ d ≤ base * 2 ^ e
scaled_mono base d e h = mul-le-mul_left base (pow_mono d e h)

capped_mono :
    (x y limit : ℕ)
    → x ≤ y
    → min (if leb x duration_max then x else limit) limit
      ≤ min (if leb y duration_max then y else limit) limit
capped_mono x y limit h = ground arith

backoff_mono : (base limit d e : ℕ) → d ≤ e → backoff base limit d ≤ backoff base limit e
unfolding backoff
backoff_mono base limit d e h =
    capped_mono (base * 2 ^ d) (base * 2 ^ e) limit (scaled_mono base d e h)

-- Every delay is at most the configured limit or, from the plateau on, one hour.
pub retry_delay-bounded :
    (c : WorkerConfig) (attempts : ℕ) → retry_delay c attempts ≤ max c.retry_max_delay 3_600_000
unfolding retry_delay
retry_delay-bounded c attempts =
    ground (arith, backoff-le c.retry_base_delay c.retry_max_delay (backoff_exponent attempts))

-- With a configured limit of at most one hour, a later attempt never waits shorter than an
-- earlier one: neither the exponent, nor the overflow of the product, nor the plateau breaks that.
pub retry_delay_mono :
    (c : WorkerConfig) (a b : ℕ)
    → c.retry_max_delay ≤ 3_600_000
    → a ≤ b
    → retry_delay c a ≤ retry_delay c b
unfolding retry_delay
retry_delay_mono c a b limit h = ground (
  arith,
  backoff-le c.retry_base_delay c.retry_max_delay (backoff_exponent a),
  backoff_mono c.retry_base_delay c.retry_max_delay (backoff_exponent a) (backoff_exponent b)
      (omega arith),
)
