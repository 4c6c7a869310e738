-- ===== src/Ingest/Checks.antt =====
-- What an event must be (core/internal/ingest/ingest.go, `sanitize` and `validate`). Go's handling of
-- UTF-8 is a parameter.
use notekeeper.Common.{
  ℕ, Bool, true, false, not, ◌&&◌, ◌||◌, List, [], ◌∷◌, ltb, leb, ◌==◌, if◌then◌else◌, map, length,
}
use notekeeper.Common.Str.{Str}
use notekeeper.Db.Rows.{delete}
use notekeeper.Db.{invalid, Result, ◌>>◌, guard}
use notekeeper.Ingest.{
  Kind, message_created, message_edited, message_deleted, PartType, EventPart, Event,
}

-- `utf8.ValidString`, `strings.ToValidUTF8` with U+FFFD, and `utf8.RuneCountInString`.
pub record Utf8 : Type 0 where
  pub valid_string : Str → Bool
  pub to_valid : Str → Str
  pub rune_count : Str → ℕ

-- MaxPartsPerEvent, MaxTextLength and MaxFieldLength
abbrev pub max_parts_per_event : ℕ
max_parts_per_event = 20

abbrev pub max_text_length : ℕ
max_text_length = 100000

abbrev pub max_field_length : ℕ
max_field_length = 512

abbrev pub is_empty : Str → Bool
is_empty [] = true
is_empty (c ∷ s) = false

-- `strings.IndexByte(s, 0) >= 0`
unfoldable pub has_nul : Str → Bool
has_nul [] = false
has_nul (c ∷ s) = c == 0 || has_nul s

pub all : (Str → Bool) → List Str → Bool
all p [] = true
all p (f ∷ fs) = p f && all p fs

module _ (utf8 : Utf8) where
  open utf8 use {valid_string, to_valid, rune_count}

  -- `cleanText`
  unfoldable pub clean_text : Str → Str
  unfolding delete
  clean_text s =
      let whole = delete (λ c. c == 0) s in if valid_string whole then whole else to_valid whole

  pub clean_part : EventPart → EventPart
  unfolding clean_text
  clean_part p = record p {
    body = clean_text p.body;
    description = clean_text p.description;
    filename = clean_text p.filename;
    media_type = clean_text p.media_type;
    reason = clean_text p.reason;
  }

  -- `sanitize`
  unfoldable pub sanitize : Event → Event
  unfolding clean_part
  sanitize ev = record ev { parts = map clean_part ev.parts }

  -- `storable`, of one field.
  unfoldable pub storable : Str → Bool
  storable f = not (has_nul f) && valid_string f

  unfoldable pub good_part : PartType → EventPart → Bool
  good_part PartType.text p = not (is_empty p.body) && leb (rune_count p.body) max_text_length
  good_part PartType.unsupported p = leb (length p.description) max_field_length
  good_part PartType.attachment p =
      leb (length p.filename) max_field_length && leb (length p.media_type) max_field_length
  good_part PartType.attachment_failed p =
      leb (length p.filename) max_field_length && leb (length p.media_type) max_field_length
  good_part PartType.unknown p = false

  unfoldable pub good_parts : List EventPart → Bool
  unfolding good_part
  good_parts [] = true
  good_parts (p ∷ ps) = good_part p.type p && good_parts ps

  -- The kind, with the parts that it needs.
  unfoldable pub good_kind : Kind → List EventPart → Bool
  good_kind message_created ps = ltb 0 (length ps)
  good_kind message_edited ps = ltb 0 (length ps)
  good_kind message_deleted ps = true
  good_kind Kind.unknown ps = false

  abbrev identifiers : Event → List Str
  identifiers ev =
      ev.event_id ∷ ev.sender ∷ ev.conversation ∷ ev.message_id ∷ ev.reply_to ∷ ev.thread ∷ []

  -- `validate`
  unfoldable pub validate : Event → Result (Unit {0})
  unfolding storable good_kind good_parts all
  validate ev = do
    guard (all storable (identifiers ev)) invalid
    guard
        (not (
          is_empty ev.event_id
          || is_empty ev.sender
          || is_empty ev.conversation
          || is_empty ev.message_id))
        invalid
    guard (all (λ f. leb (length f) max_field_length) (identifiers ev)) invalid
    guard (not (ev.timestamp == 0)) invalid
    guard (good_kind ev.kind ev.parts) invalid
    guard (leb (length ev.parts) max_parts_per_event) invalid
    guard (good_parts ev.parts) invalid
