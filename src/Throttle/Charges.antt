-- ===== src/Throttle/Charges.antt =====
-- Counting attempts (core/internal/throttle/throttle.go, `Attempt`, `charge`, `Success`, `Fail`).
use notekeeper.Common.{
  ℕ, ◌+◌, ◌-◌, ◌≤◌, ◌<◌, ◌≡◌, ◌≢◌, Option, none, some, List, [], ◌∷◌, arith, All, ap, ◌∙◌,
}
use native.Mathlib.Decide.{ℕ_discrete}
use notekeeper.Throttle.{
  Policy, Row, Table, Charge, delay, ensure, count_failure, until_after, charge,
}

-- The row of a key is blocked until a time.
abbrev pub BlockedUntil : Table → ℕ → ℕ → Type 0
BlockedUntil t k until = (r : Row) × (t k ≡ some r) × (r.blocked_until ≡ some until)

abbrev pub failures_of : Option Row → ℕ
failures_of none = 0
failures_of (some r) = r.failures

pub charge-other :
    (t : Table) (now : ℕ) (c : Charge) (k : ℕ) → k ≢ c.key → (charge t now c).1 k ≡ t k
unfolding charge
charge-other t now c k h = ground arith

pub charge-row :
    (t : Table) (now : ℕ) (c : Charge)
    → (charge t now c).0 ≡ 0
    → (charge t now c).1 c.key
      ≡ some (record {
        failures = count_failure (ensure t c.key now) now;
        blocked_until = until_after c.policy (count_failure (ensure t c.key now) now) now;
        updated_at = now;
      })
unfolding charge
charge-row t now c h = ground arith

-- A charge of a blocked key is refused with the time that is left, and changes no row.
charge-refused :
    (t : Table) (now until : ℕ) (c : Charge)
    → BlockedUntil t c.key until
    → now < until
    → (charge t now c).0 ≡ until - now
unfolding charge
charge-refused t now until c (r, e, b) h = ground arith

charge-refused_same :
    (t : Table) (now until : ℕ) (c : Charge) (k : ℕ)
    → BlockedUntil t c.key until
    → now < until
    → (charge t now c).1 k ≡ t k
unfolding charge
charge-refused_same t now until c k (r, e, b) h = ground arith

-- Requests that arrive in any order, each charged in its own transaction.
pub charges : Table → List (ℕ × Charge) → Table
charges t [] = t
charges t ((now, c) ∷ es) = charges (charge t now c).1 es

charge-BlockedUntil :
    (t : Table) (now until : ℕ) (c : Charge) (k : ℕ)
    → BlockedUntil t k until
    → now < until
    → BlockedUntil (charge t now c).1 k until
charge-BlockedUntil t now until c k (r, e, b) h = elim (ℕ_discrete k c.key) [
  | yes same ↦
      let q : t c.key ≡ some r = rw (← same) e in
      (r, charge-refused_same t now until c k (r, q, b) h ∙ e, b)
  | no other ↦ (r, charge-other t now c k other ∙ e, b)
]

charges-BlockedUntil :
    (t : Table) (until : ℕ) (k : ℕ) (es : List (ℕ × Charge))
    → BlockedUntil t k until
    → All (λ (e : ℕ × Charge). e.0 < until) es
    → BlockedUntil (charges t es) k until
unfolding charges
charges-BlockedUntil t until k [] h l = h
charges-BlockedUntil t until k ((now, c) ∷ es) h (n, l) =
    charges-BlockedUntil (charge t now c).1 until k es (charge-BlockedUntil t now until c k h n) l

until_after-some :
    (p : Policy) (n now : ℕ) → 0 < delay p n → until_after p n now ≡ some (now + delay p n)
unfolding until_after
until_after-some p n now h = ground arith

-- Once an attempt on a key is let through, every further attempt on it within the delay of the new
-- count is refused with the time that is left, whatever attempts on this key and others come between
-- within that delay.
pub charge_spacing :
    (t : Table) (now : ℕ) (c : Charge) (es : List (ℕ × Charge)) (later : ℕ) (p : Policy) (d : ℕ)
    → (charge t now c).0 ≡ 0
    → d ≡ delay c.policy (failures_of ((charge t now c).1 c.key))
    → All (λ (e : ℕ × Charge). e.0 < now + d) es
    → now ≤ later
    → later < now + d
    → (charge (charges (charge t now c).1 es) later (record { key = c.key; policy = p })).0
      ≡ now + d - later
charge_spacing t now c es later p d ok e l a b =
    let n = count_failure (ensure t c.key now) now in
    let row = charge-row t now c ok in
    let e' : d ≡ delay c.policy n = e ∙ ap (λ r. delay c.policy (failures_of r)) row in
    let blocked : BlockedUntil (charge t now c).1 c.key (now + d) =
      (_, row, rw e' (until_after-some c.policy n now (omega arith))) in
    charge-refused (charges (charge t now c).1 es) later (now + d)
      (record { key = c.key; policy = p })
      (charges-BlockedUntil (charge t now c).1 (now + d) c.key es blocked l) b
