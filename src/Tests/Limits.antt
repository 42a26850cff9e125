-- ===== src/Tests/Limits.antt =====
-- The limit on descriptors of a process that may only lower it.
use holyhttp.Prelude.{ℕ, ◌*◌, ◌<◌, ◌≤◌, ◌≡◌, refl, Option, none, some, if◌then◌else◌, leb, arith}
use holyhttp.Limit.{Lowers, lowered, power, set_fd_limit, set_fd_limit-lowered}

abbrev unprivileged : ℕ → ℕ → Option ℕ
unprivileged hard n = if leb n hard then some n else none

unprivileged-Lowers : Lowers unprivileged
unprivileged-Lowers hard n = refl

-- From 1024 descriptors: 926 are left.
left_of_1024 : lowered 1024 ≡ 926
left_of_1024 = refl

set_fd_limit-lowered_example :
    (k : ℕ) × (power k ≤ 1024)
    × (1024 < 2 * power k)
    × (lowered (power k) < power k)
    × (set_fd_limit unprivileged 12 1024 ≡ some (lowered (power k)))
set_fd_limit-lowered_example =
    set_fd_limit-lowered unprivileged unprivileged-Lowers 1024 (omega arith) (omega arith)
