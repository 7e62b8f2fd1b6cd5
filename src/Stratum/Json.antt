-- ===== src/Stratum/Json.antt =====
-- src/stratum/stratum.cpp: the requests as the JSON library gives them. The library is an argument;
-- a document is of any type.
use monero_solo_stratum.Common.{
  ℕ, ◌-◌, ◌^◌, Bool, true, false, not, ◌&&◌, ◌||◌, Option, none, some, List, [], ◌∷◌, ◌++◌, ltb,
  leb, ◌==◌, if◌then◌else◌, length,
}
use monero_solo_stratum.Common.Text.{codes, to_string}
use monero_solo_stratum.Common.Map.{same_text}
use monero_solo_stratum.Common.Word.{u64_mod}

pub data ParseEvent : Type 0 where
  object_start : ParseEvent
  object_end : ParseEvent
  key : List ℕ → ParseEvent
  other : ParseEvent

-- `parse` gives the depth and the event of each call of the callback, and the document, `none` when it
-- is discarded; an exception is `none` altogether. A 64-bit integer is its word.
pub record Json (J : Type 0) : Type 0 where
  pub parse : List ℕ → Option (List (ℕ × ParseEvent) × Option J)
  pub find : List ℕ → J → Option J
  pub is_object : J → Bool
  pub is_array : J → Bool
  pub is_string : J → Bool
  pub is_number_integer : J → Bool
  pub is_number_unsigned : J → Bool
  pub keys : J → List (List ℕ)
  pub elements : J → List J
  pub get_string : J → List ℕ
  pub get_int64 : J → ℕ
  pub get_uint64 : J → ℕ

abbrev pub is_in : List ℕ → List (List ℕ) → Bool
is_in id [] = false
is_in id (x ∷ xs) = same_text x id || is_in id xs

-- The callback's state: the keys of the open objects, the innermost first.
pub record Scan : Type 0 where
  pub open_keys : List (List (List ℕ))
  pub duplicate : Bool
  pub depth_exceeded : Bool

abbrev pub scan_kind : ParseEvent → List (List (List ℕ)) → Scan → Scan
scan_kind object_start keys s = record s { open_keys = [] ∷ keys }
scan_kind (key name) [] s = s
scan_kind (key name) (inner ∷ outer) s = record s {
  open_keys = (name ∷ inner) ∷ outer;
  duplicate = s.duplicate || is_in name inner;
}
scan_kind object_end [] s = s
scan_kind object_end (inner ∷ outer) s = record s { open_keys = outer }
scan_kind other keys s = s

unfoldable pub scan_events : ℕ → List (ℕ × ParseEvent) → Scan → Scan
scan_events max_depth [] s = s
scan_events max_depth ((depth, event) ∷ events) s = scan_events max_depth events (
    scan_kind event s.open_keys
      (record s { depth_exceeded = s.depth_exceeded || ltb max_depth depth }))

pub data MinerRequestId : Type 0 where
  integer : ℕ → MinerRequestId
  string : List ℕ → MinerRequestId

abbrev pub has_nul : List ℕ → Bool
has_nul [] = false
has_nul (b ∷ bs) = b == 0 || has_nul bs

abbrev pub int64_text : ℕ → List ℕ
int64_text word = if ltb word (2 ^ 63) then to_string word else b'-' ∷ to_string (u64_mod - word)

unfoldable pub id_key : MinerRequestId → List ℕ
id_key (integer word) = codes "i:" ++ int64_text word
id_key (string text) = codes "s:" ++ text

unfoldable pub all_in : List (List ℕ) → List (List ℕ) → Bool
all_in allowed [] = true
all_in allowed (k ∷ ks) = is_in k allowed && all_in allowed ks

module _ {J : Type 0} ⦃json : Json J⦄ where
  abbrev pub id_of : J → Option MinerRequestId
  id_of value =
      let text = json.get_string value in
      if json.is_number_integer value
      then some (integer (json.get_int64 value))
      else if json.is_number_unsigned value
      then (if ltb (json.get_uint64 value) (2 ^ 63)
          then some (integer (json.get_uint64 value))
          else none)
      else if json.is_string value
          && not (length text == 0)
          && leb (length text) 128
          && not (has_nul text)
      then some (string text)
      else none

  unfoldable pub parse_id : J → Option MinerRequestId
  parse_id document = elim (json.find (codes "id") document) [
    | none ↦ none
    | some value ↦ id_of value
  ]

  -- The document and its id, when nothing is wrong with the line as JSON.
  abbrev pub well_formed : ℕ → Scan → Option J → Option (J × MinerRequestId)
  well_formed max_depth scan none = none
  well_formed max_depth scan (some document) =
      if scan.duplicate || scan.depth_exceeded || not (json.is_object document)
      then none
      else elim (parse_id document) [ none ↦ none | some id ↦ some (document, id) ]

  unfoldable pub read_document : ℕ → List ℕ → Option (J × MinerRequestId)
  unfolding scan_events parse_id
  read_document max_depth line = elim (json.parse line) [
    | none ↦ none
    | some (events, document) ↦
        well_formed max_depth
          (scan_events max_depth events
            (record { open_keys = []; duplicate = false; depth_exceeded = false }))
          document
  ]

  unfoldable pub strict_keys : List (List ℕ) → J → Bool
  unfolding all_in
  strict_keys allowed object = json.is_object object && all_in allowed (json.keys object)

  -- A member that is a string.
  abbrev pub text_member : List ℕ → J → Option (List ℕ)
  text_member name object = elim (json.find name object) [
    | none ↦ none
    | some value ↦ if json.is_string value then some (json.get_string value) else none
  ]

  -- A member that is a string or is not there; a member of another kind is `none`.
  abbrev pub optional_text : List ℕ → J → Option (List ℕ)
  optional_text name object = elim (json.find name object) [
    | none ↦ some []
    | some value ↦ if json.is_string value then some (json.get_string value) else none
  ]
