-- ===== src/Realtime/Drain/Consecutive.antt =====
-- A stream misses no change (core/internal/server/sse.go, `drain`).
use notekeeper.Common.{
  ℕ, zero, suc, ◌+◌, ◌*◌, ◌≤◌, ◌<◌, ◌≡◌, inl, inr, refl, true, false, some, List, [], ◌∷◌, ◌++◌,
  arith, ltb, All, Bool-cases, length, map,
}
use notekeeper.Db.Rows.{find}
use notekeeper.Db.Feed.{is_user}
use notekeeper.Db.Feed.Gapless.{Numbered, feed}
use notekeeper.Db.{Db, User, Change}
use notekeeper.Realtime.Drain.{
  sse_batch, list_changes, oldest_change_seq, current_change_seq, changes_lost, Frame, entry,
  resync, drained, Drained, last_seq, after_frames, drain,
}
use notekeeper.Realtime.Drain.Batches.{Up, Retained, read_rows}

-- The client gets the changes from behind `a` up to `b`, one after the other, or these up to some change
-- and then word to fetch everything again.
abbrev pub Told : ℕ → List Frame → ℕ → Type 0
Told a [] b = a ≡ b
Told a (entry c ∷ fs) b = (c.seq ≡ a + 1) × Told (a + 1) fs b
Told a (resync ∷ fs) b = fs ≡ []

Told-Up : (a b : ℕ) (cs : List Change) → Up a cs → b ≡ a + length cs → Told a (map entry cs) b
Told-Up a b [] u e = omega (arith, e)
Told-Up a b (c ∷ cs) (q, u) e = (q, Told-Up (a + 1) b cs u (omega (arith, e)))

Told-append :
    (a b c : ℕ) (cs : List Change) (fs : List Frame)
    → Told a (map entry cs) b
    → Told b fs c
    → Told a (map entry cs ++ fs) c
Told-append a b c [] fs e t = rw e t
Told-append a b c (x ∷ cs) fs (q, h) t = (q, Told-append (a + 1) b c cs fs h t)

module _ (db : Db) (dbs : List Db) (user last : ℕ) (u : User)
    (found : find (is_user user) db.users ≡ some u) where
  abbrev rows : List Change
  rows = list_changes db user last sse_batch

  drain-lost :
      changes_lost last (oldest_change_seq db user) u.change_seq ≡ true
      → drain (db ∷ dbs) user last
        ≡ record { frames = resync ∷ []; last = u.change_seq; ending = drained }
  unfolding drain current_change_seq
  drain-lost lost = ground (arith, found, lost)

  drain-end :
      changes_lost last (oldest_change_seq db user) u.change_seq ≡ false
      → ltb (length rows) sse_batch ≡ true
      → drain (db ∷ dbs) user last
        ≡ record { frames = map entry rows; last = last_seq last rows; ending = drained }
  unfolding drain current_change_seq
  drain-end kept few = ground (arith, found, kept, few)

  drain-more :
      changes_lost last (oldest_change_seq db user) u.change_seq ≡ false
      → ltb (length rows) sse_batch ≡ false
      → drain (db ∷ dbs) user last
        ≡ after_frames (map entry rows) (drain dbs user (last_seq last rows))
  unfolding drain current_change_seq
  drain-more kept many = ground (arith, found, kept, many)

-- Whatever is committed and purged between the reads, the changes that a drain writes are numbered one
-- after the other from the last one that the client has seen, up to where the stream goes on from, or
-- until it tells the client to fetch everything again.
pub drain-Told :
    (dbs : List Db) (user last : ℕ)
    → All (Retained user) dbs
    → Told last (drain dbs user last).frames (drain dbs user last).last
unfolding drain
drain-Told [] user last h = refl
drain-Told (db ∷ dbs) user last ((u, floor, e, ns), h) =
    elim (Bool-cases (changes_lost last (oldest_change_seq db user) u.change_seq)) [
      | inl lost ↦ rw (drain-lost db dbs user last u e lost) refl
      | inr kept ↦
          let (up, next, _) = read_rows db user last sse_batch u floor ns kept in
          let rs : List Change = list_changes db user last sse_batch in
          let told : Told last (map entry rs) (last_seq last rs) =
            Told-Up last (last_seq last rs) rs up next in
          elim (Bool-cases (ltb (length rs) sse_batch)) [
            | inl few ↦ rw (drain-end db dbs user last u e kept few) told
            | inr many ↦ rw (drain-more db dbs user last u e kept many) (
                Told-append last (last_seq last rs) (drain dbs user (last_seq last rs)).last rs
                  (drain dbs user (last_seq last rs)).frames told
                  (drain-Told dbs user (last_seq last rs) h))
          ]
    ]

-- The same store, read several times.
abbrev pub copies : ℕ → Db → List Db
copies zero db = []
copies (suc k) db = db ∷ copies k db

abbrev AtEnd : User → Drained → Type 0
AtEnd u d = (d.ending ≡ drained) × (d.last ≡ u.change_seq)

drain-AtEnd :
    (db : Db) (dbs : List Db) (user last : ℕ) (u : User) (floor : ℕ)
    → find (is_user user) db.users ≡ some u
    → Numbered (feed user db) u.change_seq floor
    → (last + sse_batch ≤ u.change_seq → AtEnd u (drain dbs user (last + sse_batch)))
    → AtEnd u (drain (db ∷ dbs) user last)
drain-AtEnd db dbs user last u floor e ns more =
    elim (Bool-cases (changes_lost last (oldest_change_seq db user) u.change_seq)) [
      | inl lost ↦ rw (drain-lost db dbs user last u e lost) (refl, refl)
      | inr kept ↦
          let (up, next, len) = read_rows db user last sse_batch u floor ns kept in
          let rs : List Change = list_changes db user last sse_batch in
          elim (Bool-cases (ltb (length rs) sse_batch)) [
            | inl few ↦
                rw (drain-end db dbs user last u e kept few) (refl, ground (arith, next, len, few))
            | inr many ↦
                let full : last_seq last rs ≡ last + sse_batch = ground (arith, next, len, many) in
                rw (drain-more db dbs user last u e kept many, full)
                  (more (ground (arith, len, many)))
          ]
    ]

-- While nothing is committed, a drain ends: with at most one read for every 200 changes behind the last
-- one that the client has seen, and one more, it has told the client of all of them, or to fetch
-- everything again.
pub drain_ends :
    (k : ℕ) (db : Db) (user last : ℕ) (u : User) (floor : ℕ)
    → find (is_user user) db.users ≡ some u
    → Numbered (feed user db) u.change_seq floor
    → u.change_seq < last + suc k * sse_batch
    → ((drain (copies (suc k) db) user last).ending ≡ drained)
      × ((drain (copies (suc k) db) user last).last ≡ u.change_seq)
drain_ends zero db user last u floor e ns near =
    drain-AtEnd db [] user last u floor e ns (λ under. absurd (omega (arith, under, near)))
drain_ends (suc k) db user last u floor e ns near =
    drain-AtEnd db (copies (suc k) db) user last u floor e ns
      (λ under. drain_ends k db user (last + sse_batch) u floor e ns (omega (arith, near)))
