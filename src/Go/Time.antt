-- ===== src/Go/Time.antt =====
-- Instants, in nanoseconds since an epoch, and the comparisons of time.Time. `time.Now()` is an
-- argument of the operation that calls it, one for each call.
use bonipam.Common.{Bool}
use bonipam.Common.Int.{ℤ, ltb_ℤ, ◌+ℤ◌}

abbrev pub Time : Type 0
Time = ℤ

-- a.After(b)
abbrev pub after : Time → Time → Bool
after a b = ltb_ℤ b a

-- a.Before(b)
abbrev pub before : Time → Time → Bool
before a b = ltb_ℤ a b

-- t.Add(d)
abbrev pub add : Time → ℤ → Time
add t d = t +ℤ d
