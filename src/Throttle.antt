-- ===== src/Throttle.antt =====
-- Slowing down repeated failures (core/internal/throttle/throttle.go), over the table auth_throttle
-- (core/internal/store/dbq/tokens.sql.go). Times and delays are nanoseconds since a common origin,
-- which lies before every `now`; a key stands for its text. Each transaction is one step on the
-- table; a database error, which rolls its transaction back, is not modelled. Counters stay below
-- 2^31, so their conversion to `int32` is the identity.
pub mod Delays
pub mod Charges
mod Tests
use notekeeper.Common.{
  ℕ, zero, suc, ◌+◌, ◌-◌, ◌*◌, ◌^◌, ◌≡◌, Bool, true, false, Option, none, some, List, [], ◌∷◌, ltb,
  leb, ◌==◌, if◌then◌else◌, max, map,
}

-- Policies and delays.
pub record Policy : Type 0 where
  pub free : ℕ
  pub max_delay : ℕ

abbrev pub second : ℕ
second = 1_000_000_000

abbrev pub decay_after : ℕ
decay_after = 900 * second

pub delay : Policy → ℕ → ℕ
delay p n =
    let over = n - p.free in
    if over == 0
    then 0
    else if ltb 20 over
    then p.max_delay
    else if ltb p.max_delay (2 ^ over * second)
    then p.max_delay
    else 2 ^ over * second

abbrev pub pair : Policy
pair = record { free = 0; max_delay = 900 * second }

abbrev pub account : Policy
account = record { free = 50; max_delay = 30 * second }

abbrev pub ip : Policy
ip = record { free = 20; max_delay = 900 * second }

-- A row of auth_throttle, and the table as a function of the key.
pub record Row : Type 0 where
  pub failures : ℕ
  pub blocked_until : Option ℕ
  pub updated_at : ℕ

abbrev pub Table : Type 0
Table = ℕ → Option Row

put : Table → ℕ → Option Row → Table
put t k r j = if j == k then r else t j

-- The time still to wait for a row: `BlockedUntil.After(now)`, then `Sub`.
unfoldable pub wait_for : Option ℕ → ℕ → ℕ
wait_for none now = 0
wait_for (some until) now = if ltb now until then until - now else 0

pub record Charge : Type 0 where
  pub key : ℕ
  pub policy : Policy

-- EnsureThrottle: insert a fresh row, on conflict do nothing.
pub ensure : Table → ℕ → ℕ → Row
ensure t k now = elim (t k) [
  | none ↦ record { failures = 0; blocked_until = none; updated_at = now }
  | some r ↦ r
]

-- The failures after one more; a counter that is too old starts again.
pub count_failure : Row → ℕ → ℕ
count_failure r now = if ltb (r.updated_at + decay_after) now then 1 else r.failures + 1

pub until_after : Policy → ℕ → ℕ → Option ℕ
until_after p n now = if ltb 0 (delay p n) then some (now + delay p n) else none

-- `charge`: one transaction under the row's lock.
pub charge : Table → ℕ → Charge → ℕ × Table
unfolding put wait_for ensure count_failure until_after
charge t now c =
    let r = ensure t c.key now in
    let n = count_failure r now in
    if ltb 0 (wait_for r.blocked_until now)
    then (wait_for r.blocked_until now, put t c.key (some r))
    else (
      0,
      put t c.key (
          some (record {
            failures = n;
            blocked_until = until_after c.policy n now;
            updated_at = now;
          })),
    )

-- `Blocked`: the longest wait of the keys.
unfoldable pub blocked : Table → ℕ → List ℕ → ℕ
unfolding wait_for
blocked t now [] = 0
blocked t now (k ∷ ks) =
    let rest = blocked t now ks in
    elim (t k) [ none ↦ rest | some r ↦ max (wait_for r.blocked_until now) rest ]

-- The loop of `Attempt`: it stops at the first key that is blocked meanwhile.
charge_all : Table → (ℕ → ℕ) → ℕ → List Charge → ℕ × Table
charge_all t clock k [] = (0, t)
charge_all t clock k (c ∷ cs) =
    let w = charge t (clock k) c in
    let rest = charge_all w.1 clock (k + 1) cs in if ltb 0 w.0 then w else rest

-- `Attempt`; `clock k` is what the clock says when it is read for the k-th time.
pub attempt : Table → (ℕ → ℕ) → List Charge → ℕ × Table
unfolding blocked charge_all
attempt t clock cs =
    let w = blocked t (clock 0) (map (λ c. c.key) cs) in
    if ltb 0 w then (w, t) else charge_all t clock 1 cs

-- ResetThrottle, for each key.
reset_all : Table → List ℕ → Table
unfolding put
reset_all t [] = t
reset_all t (k ∷ ks) = reset_all (put t k none) ks

-- One refund: a failure is taken back; at 0 the row goes, and a free count is not blocked.
refunded : Policy → Row → Option Row
refunded p r =
    let n = r.failures - 1 in
    if n == 0
    then none
    else some
        (record r { failures = n; blocked_until = if leb n p.free then none else r.blocked_until })

refund : Table → Charge → Table
unfolding put refunded
refund t c = elim (t c.key) [ none ↦ t | some r ↦ put t c.key (refunded c.policy r) ]

refund_all : Table → List Charge → Table
unfolding refund
refund_all t [] = t
refund_all t (c ∷ cs) = refund_all (refund t c) cs

pub success : Table → List ℕ → List Charge → Table
unfolding reset_all refund_all
success t reset refunds = refund_all (reset_all t reset) refunds

-- RecordThrottleFailure: the upsert of `Fail`; a row that is there keeps its block.
recorded : Option Row → ℕ → Row
unfolding count_failure
recorded none now = record { failures = 1; blocked_until = none; updated_at = now }
recorded (some r) now = record r { failures = count_failure r now; updated_at = now }

-- `Fail`: the block is set only if there is a delay.
pub fail : Table → ℕ → ℕ → Policy → Table
unfolding put recorded
fail t now k p =
    let r = recorded (t k) now in
    let d = delay p r.failures in
    put t k (some (if ltb 0 d then record r { blocked_until = some (now + d) } else r))

pub reset : Table → ℕ → Table
unfolding put
reset t k = put t k none
