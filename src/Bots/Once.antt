-- ===== src/Bots/Once.antt =====
-- A pairing code links at most one account (core/internal/bots/identities.go, `Link` and `CreatePairingCode`).
use mathlib.Core.Path.{subst}
use notekeeper.Common.{
  ℕ, ◌+◌, ◌≤◌, ◌≡◌, refl, sym, ap, ◌∙◌, Bool, true, false, not, Option, none, some, List, [], ◌∷◌,
  ltb, arith, All, Bool-cases, Option-cases, inl, inr,
}
use notekeeper.Common.Str.{Str}
use notekeeper.Db.Rows.{find, count, update, update_one, update_one-rows, All-update, All-of}
use notekeeper.Db.Feed.{status}
use notekeeper.Db.{Result, ok, err, ◌>>=◌, ◌>>◌, guard, invalid, conflict}
use notekeeper.Throttle.{blocked}
use notekeeper.Ingest.{Identity}
use notekeeper.Ingest.Tables.{is_external}
use notekeeper.Ingest.Checks.{is_empty}
use notekeeper.Bots.Codes.{normalise_pairing_code}
use notekeeper.Bots.Pairing.{
  PairingCode, Directory, Outside, pairing_ttl, max_active_codes, is_active_of, create_pairing_code,
  code_type, LinkOutcome, linked, link_invalid_code, link_already, link_wrong_domain,
  link_throttled, identity_in_domain, has_hash, can_consume, consumed, for_bot, Attempt, LinkEnd,
  insert_identity, consume, redeem, count_guess, close_attempt, link_account, link_code, link_text,
  link,
}

abbrev Gives : (LinkEnd → Type 0) → Result LinkEnd → Type 0
Gives P (err e) = Unit {0}
Gives P (ok end) = P end

-- The code that an attempt names in the store that it reads.
abbrev pub Names : Outside → Attempt → Directory → PairingCode → Type 0
Names e a seen c =
    (code : Str) × (normalise_pairing_code e.to_upper a.raw_code ≡ some code)
    × (find (has_hash (e.hash_token code) a.now) seen.pairing_codes ≡ some c)

-- From a time on, no row of the code can be consumed.
abbrev pub Spent : ℕ → ℕ → Directory → Type 0
Spent k now d = All (λ c. can_consume k now c ≡ false) d.pairing_codes

-- What holds of every end of an attempt: that of a link, which consumes the code, and every other,
-- which leaves the codes as they are.
module _ (P : LinkEnd → Type 0) (a : Attempt) (s : Directory)
    (other : (o : LinkOutcome) (i : Option ℕ) (t : Directory)
      → ¬ (o ≡ linked)
      → t.pairing_codes ≡ s.pairing_codes
      → P ((o, i), t)) where
  abbrev Won : PairingCode → Type 0
  Won c =
      (x : PairingCode) (rest : List PairingCode) (i : Option ℕ) (t : Directory)
      → update_one (can_consume c.id a.now) (consumed a.now) s.pairing_codes ≡ some (x, rest)
      → t.pairing_codes ≡ rest
      → P ((linked, i), t)

  wrong_code : (key : ℕ) → P (count_guess key a link_invalid_code s)
  unfolding count_guess
  wrong_code key = other link_invalid_code _ _ (λ e. absurd (cc)) refl

  insert-settled :
      (held : Option Identity) (key : ℕ) (c x : PairingCode) (rest : List PairingCode)
      → update_one (can_consume c.id a.now) (consumed a.now) s.pairing_codes ≡ some (x, rest)
      → Won c
      → P (close_attempt key a (insert_identity held a c.user_id rest s))
  unfolding close_attempt insert_identity
  insert-settled (some j) key c x rest h won = other link_already _ _ (λ e. absurd (cc)) refl
  insert-settled none key c x rest h won = won x rest _ _ h refl

  consume-settled :
      (key : ℕ) (c : PairingCode)
      → Won c
      → P (
          close_attempt key a (
            consume
              (update_one (can_consume c.id a.now) (consumed a.now) s.pairing_codes)
              a
              c.user_id
              s))
  unfolding close_attempt count_guess consume
  consume-settled key c won =
      elim (Option-cases (update_one (can_consume c.id a.now) (consumed a.now) s.pairing_codes)) [
        | inl none_ ↦ rw none_ (wrong_code key)
        | inr ((x, rest), some_) ↦ rw some_ (
            insert-settled (find (is_external a.bot.type a.external_user) s.intake.identities) key c
              x rest some_ won)
      ]

  link_account-Gives :
      (held : Option Identity) (key : ℕ) (c : PairingCode)
      → Won c
      → Gives P (link_account held key a c s)
  unfolding link_account redeem close_attempt
  link_account-Gives (some j) key c won = other link_already _ _ (λ e. absurd (cc)) refl
  link_account-Gives none key c won = by_status (status c.user_id s.intake.db.users)
    where
      by_status :
          (o : Option Bool) → Gives P (redeem o a c s >>= λ end. ok (close_attempt key a end))
      by_status none = tt
      by_status (some false) = wrong_code key
      by_status (some true) = consume-settled key c won

  -- The whole attempt.
  module _ (e : Outside) (seen : Directory)
      (won : (c : PairingCode) → Names e a seen c → Won c) where
    link_code-Gives :
        (key : ℕ) (found : Option PairingCode)
        → ((c : PairingCode) → found ≡ some c → Won c)
        → Gives P (link_code found key a seen s)
    unfolding link_code
    link_code-Gives key none h = wrong_code key
    link_code-Gives key (some c) h = elim (Bool-cases (for_bot c a.bot)) [
      | inl yes_ ↦ rw yes_ (link_account-Gives _ key c (h c refl))
      | inr no_ ↦ rw no_ (wrong_code key)
    ]

    link_text-Gives :
        (key : ℕ) (text : Option Str)
        → normalise_pairing_code e.to_upper a.raw_code ≡ text
        → Gives P (link_text text e key a seen s)
    unfolding link_text
    link_text-Gives key none h = wrong_code key
    link_text-Gives key (some code) h =
        link_code-Gives key (find (has_hash (e.hash_token code) a.now) seen.pairing_codes)
          (λ c found. won c (code, h, found))

    pub link-Gives : Gives P (link e a seen s)
    unfolding link
    link-Gives =
        elim (Bool-cases (
          ltb 0 (
            blocked seen.throttle a.now (e.throttle_key a.bot.instance_id a.external_user ∷ [])))) [
              | inl early ↦ rw early (other link_throttled _ _ (λ h. absurd (cc)) refl)
              | inr free ↦
                  elim (Bool-cases (
                    identity_in_domain e.equal_fold a.bot.type a.external_user
                      a.bot.identity_domain)) [
                        | inl inside ↦ rw (free, inside) (link_text-Gives _ _ refl)
                        | inr outside ↦
                            rw (free, outside) (other link_wrong_domain _ _ (λ h. absurd (cc)) refl)
                      ]
            ]

can_consume-later :
    (k : ℕ) (now later : ℕ) (c : PairingCode)
    → now ≤ later
    → can_consume k now c ≡ false
    → can_consume k later c ≡ false
can_consume-later k now later c le h = ground (arith, h)

used-Spent : (k now at : ℕ) (c : PairingCode) → can_consume k now (consumed at c) ≡ false
used-Spent k now at c = ground arith

update-Spent :
    (k now id at : ℕ) (rows : List PairingCode)
    → All (λ c. can_consume k now c ≡ false) rows
    → All (λ c. can_consume k now c ≡ false) (update (can_consume id at) (consumed at) rows)
update-Spent k now id at rows h =
    All-update (λ c. can_consume k now c ≡ false) (λ c. can_consume k now c ≡ false)
      (can_consume id at) (consumed at) rows (λ c _ _. used-Spent k now at c) (λ c h' _. h') h

consume-Spent :
    (k now : ℕ) (rows : List PairingCode)
    → All (λ c. can_consume k now c ≡ false) (update (can_consume k now) (consumed now) rows)
consume-Spent k now rows =
    All-update (λ _. Unit {0}) (λ c. can_consume k now c ≡ false) (can_consume k now) (consumed now)
      rows (λ c _ _. used-Spent k now now c) (λ c _ h. h) (All-of (λ _. Unit {0}) rows (λ _. tt))

find-Spent :
    (k now later : ℕ) (rows : List PairingCode)
    → now ≤ later
    → All (λ c. can_consume k now c ≡ false) rows
    → find (can_consume k later) rows ≡ none
unfolding find
find-Spent k now later [] le h = refl
find-Spent k now later (c ∷ rows) le (h, hs) =
    rw (can_consume-later k now later c le h) (find-Spent k now later rows le hs)

-- An attempt leaves a spent code spent.
link-Spent :
    (k now : ℕ) (e : Outside) (a : Attempt) (seen s : Directory)
    → Spent k now s
    → Gives (λ end. Spent k now end.1) (link e a seen s)
link-Spent k now e a seen s h =
    link-Gives (λ end. Spent k now end.1) a s
      (λ o i t _ same. subst (All (λ c. can_consume k now c ≡ false)) (sym same) h) e seen
      (λ c named x rest i t won same.
        subst (All (λ c. can_consume k now c ≡ false))
          (sym (same ∙ update_one-rows _ _ s.pairing_codes x rest won))
          (update-Spent k now c.id a.now s.pairing_codes h))

-- An attempt that links has spent the code that it names.
abbrev Used : ℕ → ℕ → LinkEnd → Type 0
Used k now ((o, i), t) = o ≡ linked → Spent k now t

abbrev NotLinked : LinkEnd → Type 0
NotLinked ((o, i), t) = ¬ (o ≡ linked)

link-Used :
    (e : Outside) (a : Attempt) (seen s : Directory) (c : PairingCode)
    → Names e a seen c
    → Gives (Used c.id a.now) (link e a seen s)
link-Used e a seen s c (code, text, found) =
    link-Gives (Used c.id a.now) a s (λ o i t no_ _ yes_. absurd (no_ yes_)) e seen
      (λ d (code', text', found') x rest i t won same _.
        let eq : code' ≡ code = ground (arith, text, text') in
        let one : d ≡ c = ground (arith, eq, found, found') in
        subst (All (λ q. can_consume c.id a.now q ≡ false))
          (sym (
            same
            ∙ update_one-rows _ _ s.pairing_codes x rest won
            ∙ ap
                (λ (q : PairingCode).
                  update (can_consume q.id a.now) (consumed a.now) s.pairing_codes)
                one))
          (consume-Spent c.id a.now s.pairing_codes))

link-NotLinked :
    (k now : ℕ) (e : Outside) (a : Attempt) (seen s : Directory) (c : PairingCode)
    → now ≤ a.now
    → c.id ≡ k
    → Names e a seen c
    → Spent k now s
    → Gives NotLinked (link e a seen s)
link-NotLinked k now e a seen s c le here (code, text, found) spent =
    link-Gives NotLinked a s (λ o i t no_ _. no_) e seen
      (λ d (code', text', found') x rest i t won same _.
        let eq : code' ≡ code = ground (arith, text, text') in
        let one : d ≡ c = ground (arith, eq, found, found') in
        let gone : find (can_consume d.id a.now) s.pairing_codes ≡ none =
          ap (λ (j : ℕ). find (can_consume j a.now) s.pairing_codes)
            (ap (λ (q : PairingCode). q.id) one ∙ here)
          ∙ find-Spent k now a.now s.pairing_codes le spent in
        unfold update_one in absurd (ground (arith, gone, won)))

-- What happens to the codes after one is used: codes are made, whose ids are others, attempts are made,
-- and all else leaves the codes as they are.
pub data Step (k : ℕ) : Directory → Directory → Type 0 where
  creates :
      (e : Outside) (d d' : Directory) (user : ℕ) (type : Str) (bot : Option ℕ) (code : Str)
      (id now : ℕ)
      → ¬ (id ≡ k)
      → create_pairing_code e d user type bot code id now ≡ ok d'
      → Step k d d'
  attempts :
      (e : Outside) (a : Attempt) (seen d : Directory) (end : LinkEnd)
      → link e a seen d ≡ ok end
      → Step k d end.1
  others : (d d' : Directory) → d'.pairing_codes ≡ d.pairing_codes → Step k d d'

pub data Steps (k : ℕ) : Directory → Directory → Type 0 where
  stop : (d : Directory) → Steps k d d
  step : (a b c : Directory) → Step k a b → Steps k b c → Steps k a c

abbrev Leaves : (Directory → Type 0) → Result Directory → Type 0
Leaves P (err e) = Unit {0}
Leaves P (ok d) = P d

create-Spent :
    (k now : ℕ) (e : Outside) (d : Directory) (user : ℕ) (type : Str) (bot : Option ℕ) (code : Str)
    (id at : ℕ)
    → ¬ (id ≡ k)
    → Spent k now d
    → Leaves (Spent k now) (create_pairing_code e d user type bot code id at)
unfolding create_pairing_code
create-Spent k now e d user type bot code id at fresh spent = by_type (code_type e type bot)
  where
    row : Str → PairingCode
    row kind = record {
      id = id;
      user_id = user;
      code_hash = e.hash_token code;
      bot_instance_id = bot;
      bot_type = kind;
      expires_at = at + pairing_ttl;
      used_at = none;
    }

    checked :
        (p q : Bool) (kind : Str)
        → Leaves (Spent k now) (
            guard p invalid
            >> (guard q conflict >> ok (record d { pairing_codes = row kind ∷ d.pairing_codes })))
    checked false q kind = tt
    checked true false kind = tt
    checked true true kind = (ground (arith, fresh), spent)

    by_type :
        (m : Result Str)
        → Leaves (Spent k now) (
            m >>= λ kind.
            guard (not (is_empty kind)) invalid
            >> (guard (ltb (count (is_active_of user at) d.pairing_codes) max_active_codes) conflict
                >> ok (record d { pairing_codes = row kind ∷ d.pairing_codes })))
    by_type (err why) = tt
    by_type (ok kind) = checked _ _ kind

Step-Spent : (k now : ℕ) (a b : Directory) → Step k a b → Spent k now a → Spent k now b
Step-Spent k now a b (creates e _ _ user type bot code id at fresh h) s =
    subst (Leaves (Spent k now)) h (create-Spent k now e a user type bot code id at fresh s)
Step-Spent k now a _ (attempts e t seen _ end h) s =
    subst (Gives (λ (x : LinkEnd). Spent k now x.1)) h (link-Spent k now e t seen a s)
Step-Spent k now a b (others _ _ h) s = subst (All (λ c. can_consume k now c ≡ false)) (sym h) s

Steps-Spent : (k now : ℕ) (a b : Directory) → Steps k a b → Spent k now a → Spent k now b
Steps-Spent k now a _ (stop d) h = h
Steps-Spent k now a c (step _ b _ s ss) h = Steps-Spent k now b c ss (Step-Spent k now a b s h)

-- A code links once: after an attempt that links, and whatever happens then, no attempt that names
-- the same code at that time or later links.
pub link_once :
    (e e' : Outside) (a b : Attempt) (seen s t seen' u v : Directory) (c c' : PairingCode)
    (i : Option ℕ) (r : LinkOutcome × Option ℕ)
    → Names e a seen c
    → link e a seen s ≡ ok ((linked, i), t)
    → Steps c.id t u
    → a.now ≤ b.now
    → Names e' b seen' c'
    → c'.id ≡ c.id
    → link e' b seen' u ≡ ok (r, v)
    → ¬ (r.0 ≡ linked)
link_once e e' a b seen s t seen' u v c c' i r named first between le named' same second =
    let spent : Spent c.id a.now t =
      subst (Gives (Used c.id a.now)) first (link-Used e a seen s c named) refl in
    subst (Gives NotLinked) second (
      link-NotLinked c.id a.now e' b seen' u c' le same named'
        (Steps-Spent c.id a.now t u between spent))
