-- ===== src/Db/Tests.antt =====
-- A run of the change feed (core/internal/store/store.go).
use notekeeper.Common.{refl, true, some, [], ◌∷◌}
use notekeeper.Common.Str.{codes}
use notekeeper.Db.Rows.{find, select}
use notekeeper.Db.Feed.{change}
use notekeeper.Db.Feed.Gapless.{Gapless, change-Gapless}
use notekeeper.Db.{Db, User, Entity, upsert}

abbrev owner : User
owner = record { id = 1; active = true; timezone = codes "UTC"; change_seq = 5 }

abbrev purged : Db
purged = record {
  users = owner ∷ [];
  categories = [];
  notes = [];
  parts = [];
  attachments = [];
  blobs = [];
  storage = [];
  links = [];
  reminders = [];
  outbox = [];
  sent = [];
  changes =
      record {
        user_id = 1;
        seq = 5;
        entity = Entity.note;
        entity_id = 7;
        op = upsert;
        version = some 1;
      }
      ∷ [];
  notifications = [];
}

purged-Gapless : Gapless 1 4 purged
unfolding find select
purged-Gapless = (owner, refl, (4, refl, refl, refl))

change-Gapless_example : Gapless 1 4 (change purged 1 Entity.note 7 upsert (some 2))
change-Gapless_example = change-Gapless purged 1 1 4 Entity.note 7 upsert (some 2) purged-Gapless
