-- ===== src/Transport/Backoff.antt =====
-- How long `DataProviderService` of home/data-provider.service.ts waits before it connects again.
use zwei.Common.{ℕ, zero, suc, ◌*◌, ◌≤◌, ◌≡◌, arith}
use zwei.Transport.{Transport, base_delay, reconnect_delay, schedule_reconnect}

-- A delay with a jitter of a fifth of it at most.
abbrev pub IsJittered : ℕ → ℕ → Type 0
IsJittered base delay = (4 * base ≤ 5 * delay) × (5 * delay ≤ 6 * base)

-- For every number of attempts and every random number, the delay differs from the base delay of
-- that attempt by a fifth of it at most.
pub reconnect_delay-IsJittered :
    (attempt random : ℕ) → IsJittered (base_delay attempt) (reconnect_delay attempt random)
unfolding base_delay reconnect_delay
reconnect_delay-IsJittered zero random = omega arith
reconnect_delay-IsJittered (suc zero) random = omega arith
reconnect_delay-IsJittered (suc (suc zero)) random = omega arith
reconnect_delay-IsJittered (suc (suc (suc zero))) random = omega arith
reconnect_delay-IsJittered (suc (suc (suc (suc zero)))) random = omega arith
reconnect_delay-IsJittered (suc (suc (suc (suc (suc n))))) random = ground arith

-- The base delay grows with the attempts, up to 30 seconds.
base_delay-grows : (n : ℕ) → (base_delay n ≤ base_delay (suc n)) × (base_delay n ≤ 30000)
unfolding base_delay
base_delay-grows zero = ground arith
base_delay-grows (suc zero) = ground arith
base_delay-grows (suc (suc zero)) = ground arith
base_delay-grows (suc (suc (suc zero))) = ground arith
base_delay-grows (suc (suc (suc (suc zero)))) = ground arith
base_delay-grows (suc (suc (suc (suc (suc n))))) = ground arith

-- While the timer is set, a failure of the connection changes nothing.
schedule_reconnect_again :
    (random again : ℕ) (s : Transport)
    → schedule_reconnect again (schedule_reconnect random s) ≡ schedule_reconnect random s
unfolding schedule_reconnect
schedule_reconnect_again random again s = ground arith
