-- ===== src/Bots/Pairing.antt =====
-- Pairing codes and the link that they make (core/internal/bots/identities.go, `CreatePairingCode`, `Link`
-- and `IdentityInDomain`). `Link` reads before it locks the user's row, so it is given two stores, like
-- `handle` of Ingest/Handle: the one that it reads in, and the one that the transaction starts from.
use notekeeper.Common.{
  ℕ, ◌+◌, ◌*◌, Bool, true, false, not, ◌&&◌, ◌||◌, Option, none, some, List, [], ◌∷◌, ltb, ◌==◌,
  if◌then◌else◌,
}
use notekeeper.Common.Str.{Str, codes, str_eq, cut}
use notekeeper.Db.Rows.{find, update_one, count}
use notekeeper.Db.Feed.{status, change}
use notekeeper.Db.{
  Entity, upsert, not_found, invalid, conflict, Result, ok, err, ◌>>=◌, ◌>>◌, guard, or_fail,
}
use notekeeper.Throttle.{Policy, Table, blocked, fail, reset}
use notekeeper.Ingest.{Principal, Identity}
use notekeeper.Ingest.Checks.{is_empty}
use notekeeper.Ingest.Tables.{Intake, is_external}
use notekeeper.Ingest.Handle.{second}
use notekeeper.Bots.{NoticeIds, security_notice}
use notekeeper.Bots.Codes.{normalise_pairing_code}

-- pairingTTL, maxActiveCodes and pairingPolicy
abbrev pub pairing_ttl : ℕ
pairing_ttl = 600 * second

abbrev pub max_active_codes : ℕ
max_active_codes = 5

abbrev pub pairing_policy : Policy
pairing_policy = record { free = 4; max_delay = 900 * second }

-- A row of pairing_codes; a hash is a number.
pub record PairingCode : Type 0 where
  pub id : ℕ
  pub user_id : ℕ
  pub code_hash : ℕ
  pub bot_instance_id : Option ℕ
  pub bot_type : Str
  pub expires_at : ℕ
  pub used_at : Option ℕ

-- The store of the intake with the pairing codes and the table of the throttle.
pub record Directory : Type 0 where
  pub intake : Intake
  pub pairing_codes : List PairingCode
  pub throttle : Table

-- What is taken from outside: Go's `strings.ToUpper` and `strings.EqualFold`, the hash of a code, the
-- key of the throttle for an account, and the type of a bot (a row of bot_instances).
pub record Outside : Type 0 where
  pub to_upper : Str → Str
  pub equal_fold : Str → Str → Bool
  pub hash_token : Str → ℕ
  pub throttle_key : ℕ → Str → ℕ
  pub type_of : ℕ → Option Str

abbrev pub is_unused : Option ℕ → Bool
is_unused none = true
is_unused (some t) = false

abbrev pub is_live : ℕ → PairingCode → Bool
is_live now c = is_unused c.used_at && ltb now c.expires_at

-- CountActivePairingCodes
abbrev pub is_active_of : ℕ → ℕ → PairingCode → Bool
is_active_of user now c = c.user_id == user && is_live now c

-- The type that a code is for.
unfoldable pub code_type : Outside → Str → Option ℕ → Result Str
code_type e type (some i) = if is_empty type then or_fail (e.type_of i) invalid else ok type
code_type e type none = ok type

-- `CreatePairingCode`; `code` is the text that is made, and `id` the new id.
unfoldable pub create_pairing_code :
    Outside → Directory → ℕ → Str → Option ℕ → Str → ℕ → ℕ → Result Directory
unfolding code_type
create_pairing_code e d user type instance_ code id now = do
  kind ← code_type e type instance_
  guard (not (is_empty kind)) invalid
  guard (ltb (count (is_active_of user now) d.pairing_codes) max_active_codes) conflict
  ok (record d {
    pairing_codes =
        record {
          id = id;
          user_id = user;
          code_hash = e.hash_token code;
          bot_instance_id = instance_;
          bot_type = kind;
          expires_at = now + pairing_ttl;
          used_at = none;
        }
        ∷ d.pairing_codes;
  })

pub data LinkOutcome : Type 0 where
  linked link_invalid_code link_already link_wrong_domain link_throttled : LinkOutcome

-- `IdentityInDomain`
abbrev of_server : (Str → Str → Bool) → Str → Str × Str × Bool → Bool
of_server fold domain (name, server, found) = found && fold server domain

unfoldable pub identity_in_domain : (Str → Str → Bool) → Str → Str → Str → Bool
unfolding cut
identity_in_domain fold type external domain =
    is_empty domain
    || not (str_eq type (codes "matrix"))
    || of_server fold domain (cut b':' external)

-- LookupPairingCode and ConsumePairingCode
abbrev pub has_hash : ℕ → ℕ → PairingCode → Bool
has_hash hash now c = c.code_hash == hash && is_live now c

abbrev pub can_consume : ℕ → ℕ → PairingCode → Bool
can_consume id now c = c.id == id && is_live now c

abbrev pub consumed : ℕ → PairingCode → PairingCode
consumed now c = record c { used_at = some now }

abbrev pub other_instance : Option ℕ → ℕ → Bool
other_instance none bot = false
other_instance (some i) bot = not (i == bot)

abbrev pub for_bot : PairingCode → Principal → Bool
for_bot c bot = str_eq c.bot_type bot.type && not (other_instance c.bot_instance_id bot.instance_id)

-- An attempt to link: who sends which text where, when it was sent (0 being unknown) and the time; the
-- ids that are free, the text of the notice, and the database's time.
pub record Attempt : Type 0 where
  pub bot : Principal
  pub external_user : Str
  pub conversation : Str
  pub raw_code : Str
  pub sent : ℕ
  pub now : ℕ
  pub identity : ℕ
  pub notice_ids : NoticeIds
  pub notice : ℕ
  pub database_now : ℕ

-- The earlier of the two clocks.
abbrev time_of_link : Attempt → ℕ
time_of_link a = if not (a.sent == 0) && ltb a.sent a.now then a.sent else a.now

abbrev pub new_identity : Attempt → ℕ → List Identity → Identity
new_identity a user is = record {
  id = a.identity;
  user_id = user;
  bot_instance_id = a.bot.instance_id;
  bot_type = a.bot.type;
  external_user_id = a.external_user;
  conversation_id = if is_empty a.conversation then none else some a.conversation;
  reminder_target = count (λ (i : Identity). i.user_id == user) is == 0;
  linked_at = time_of_link a;
}

abbrev pub LinkEnd : Type 0
LinkEnd = (LinkOutcome × Option ℕ) × Directory

-- The transaction that redeems a code, from the insertion of the identity on: an account that is linked
-- meanwhile undoes it.
unfoldable pub insert_identity :
    Option Identity → Attempt → ℕ → List PairingCode → Directory → LinkEnd
unfolding security_notice
insert_identity (some i) a user rest s = ((link_already, none), s)
insert_identity none a user rest s =
    let is = new_identity a user s.intake.identities ∷ s.intake.identities in
    (
      (linked, some a.identity),
      record s {
        pairing_codes = rest;
        intake = record s.intake {
          identities = is;
          db =
              security_notice a.notice_ids
                (change s.intake.db user Entity.external_identity a.identity upsert none) is user
                a.notice a.now a.database_now;
        };
      },
    )

-- From the consumption of the code on.
unfoldable pub consume : Option (PairingCode × List PairingCode) → Attempt → ℕ → Directory → LinkEnd
unfolding insert_identity
consume none a user s = ((link_invalid_code, none), s)
consume (some (c, rest)) a user s =
    insert_identity (find (is_external a.bot.type a.external_user) s.intake.identities) a user rest
      s

-- The whole transaction, by whether the user is there and active.
unfoldable pub redeem : Option Bool → Attempt → PairingCode → Directory → Result LinkEnd
unfolding consume
redeem none a c s = err not_found
redeem (some false) a c s = ok ((link_invalid_code, none), s)
redeem (some true) a c s =
    ok
      (consume (update_one (can_consume c.id a.now) (consumed a.now) s.pairing_codes) a c.user_id s)

-- `fail`: a wrong guess is counted.
unfoldable pub count_guess : ℕ → Attempt → LinkOutcome → Directory → LinkEnd
count_guess key a o s =
    ((o, none), record s { throttle = fail s.throttle a.now key pairing_policy })

-- What the end of the transaction does to the throttle.
unfoldable pub close_attempt : ℕ → Attempt → LinkEnd → LinkEnd
unfolding count_guess
close_attempt key a ((linked, i), s) = ((linked, i), record s { throttle = reset s.throttle key })
close_attempt key a ((link_already, i), s) = ((link_already, none), s)
close_attempt key a ((o, i), s) = count_guess key a o s

-- `Link`, by the account that is linked already, the code that is found, and the text that is read.
unfoldable pub link_account :
    Option Identity → ℕ → Attempt → PairingCode → Directory → Result LinkEnd
unfolding redeem close_attempt
link_account (some i) key a c s = ok ((link_already, none), s)
link_account none key a c s = do
  end ← redeem (status c.user_id s.intake.db.users) a c s
  ok (close_attempt key a end)

unfoldable pub link_code : Option PairingCode → ℕ → Attempt → Directory → Directory → Result LinkEnd
unfolding link_account count_guess
link_code none key a seen s = ok (count_guess key a link_invalid_code s)
link_code (some c) key a seen s =
    if for_bot c a.bot
    then link_account (find (is_external a.bot.type a.external_user) seen.intake.identities) key a c
        s
    else ok (count_guess key a link_invalid_code s)

unfoldable pub link_text :
    Option Str → Outside → ℕ → Attempt → Directory → Directory → Result LinkEnd
unfolding link_code count_guess
link_text none e key a seen s = ok (count_guess key a link_invalid_code s)
link_text (some code) e key a seen s =
    link_code (find (has_hash (e.hash_token code) a.now) seen.pairing_codes) key a seen s

-- `Link`
unfoldable pub link : Outside → Attempt → Directory → Directory → Result LinkEnd
unfolding link_text identity_in_domain
link e a seen s =
    let key = e.throttle_key a.bot.instance_id a.external_user in
    if ltb 0 (blocked seen.throttle a.now (key ∷ []))
    then ok ((link_throttled, none), s)
    else if identity_in_domain e.equal_fold a.bot.type a.external_user a.bot.identity_domain
    then link_text (normalise_pairing_code e.to_upper a.raw_code) e key a seen s
    else ok ((link_wrong_domain, none), s)
