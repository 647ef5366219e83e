-- ===== src/Common/Int.antt =====
-- Signed numbers, as far as the sources compute with them: the places of an offset about zero.
use cyber_sentinel_ids_ips.Prelude.{ℕ, suc, ◌+◌, ◌-◌, leb, if◌then◌else◌, Bool}

pub data ℤ : Type 0 where
  pos : ℕ → ℤ
  negsuc : ℕ → ℤ

-- `a - b`, signed.
abbrev pub diff : ℕ → ℕ → ℤ
diff a b = if leb b a then pos (a - b) else negsuc (b - a - 1)

-- `max(0)`.
abbrev pub at_least_zero : ℤ → ℕ
at_least_zero (pos n) = n
at_least_zero (negsuc n) = 0

-- `offset + length <= bound`, signed.
abbrev pub ends_by : ℤ → ℕ → ℕ → Bool
ends_by (pos n) length bound = leb (n + length) bound
ends_by (negsuc n) length bound = leb length (bound + suc n)
