-- ===== src/Pkg/Buffers.antt =====
-- pkg/buf/buffer.go and pkg/retry/reconnect.go: a buffer that is reused, and waits between attempts that
-- grow. Times are in nanoseconds; what a multiplication by the factor gives, in floating point, is a
-- parameter.
use voce.Prelude.{ℕ, ◌+◌, Bool, not, ◌&&◌, ◌==◌, ltb, if◌then◌else◌, List, length}
use voce.Prelude.Slices.{Slice, nil_slice, cap_of, reslice, copy, sized}

pub record Buffer : Type 0 where
  pub content : Slice
  pub recycle_cap : ℕ

unfoldable pub set : List ℕ → Buffer → Buffer
set payload b =
    if length payload == 0
    then b
    else record b { content = copy (sized b.content (length payload)) payload }

unfoldable pub recycle : Buffer → Buffer
recycle b = record b {
  content =
      if ltb 0 b.recycle_cap && ltb b.recycle_cap (cap_of b.content)
      then nil_slice
      else reslice b.content 0;
}

pub record Backoff : Type 0 where
  pub initial : ℕ
  pub max : ℕ
  pub current : ℕ
  pub next_retry : ℕ

unfoldable pub new_backoff : ℕ → ℕ → Backoff
new_backoff initial max = record { initial = initial; max = max; current = initial; next_retry = 0 }

unfoldable pub try_now : ℕ → Backoff → Bool
try_now now b = not (ltb now b.next_retry)

unfoldable pub reset : Backoff → Backoff
reset b = record b { current = b.initial; next_retry = 0 }

module _ (multiplied : ℕ → ℕ) where
  unfoldable pub advance : Backoff → Backoff
  advance b = record b {
    current = if ltb b.max (multiplied b.current) then b.max else multiplied b.current;
  }

  unfoldable pub fail : ℕ → Backoff → Backoff
  fail now b = advance (record b { next_retry = now + b.current })

  -- Wait: the time that it waits.
  unfoldable pub wait : Backoff → Backoff × ℕ
  wait b = (advance b, b.current)
