-- ===== src/Redaction/RepairTests.antt =====
-- A damaged placeholder, `{{pii:emial:oek-rivr}}`, and a codebook of three words.
use euroclaw.Redaction.Distance.{Text, edit_distance}
use euroclaw.Redaction.Distance.Least.{IsLeast, edit_distance-IsLeast}
use euroclaw.Redaction.Repair.{
  Codebook, text_eq, repair_word, repair_kind, candidate_codes, join, format_placeholder,
}
use euroclaw.Redaction.Repair.Words.{IsRepair, repair_word-IsRepair}
use euroclaw.Redaction.Repair.Codes.{choices, candidate_codes-choices}
use euroclaw.Redaction.Recover.{
  has_value, Frame, split_words, is_separator, recover_frame, rehydrate_text,
}
use euroclaw.Redaction.Recover.Safe.{IsAsWritten, IsRepaired, recover_frame-IsSafe}
use euroclaw.Redaction.Recover.Foreign.{resolve_text, rehydrate_text-foreign}
use euroclaw.Redaction.Redact.{drop}
use euroclaw.Redaction.Mappings.{PiiKind, Container, Mappings}
use euroclaw.Prelude.{
  ℕ, String, ◌≡◌, refl, ◌⊎◌, Bool, true, Option, none, some, List, [], ◌∷◌, ◌++◌, map, arith, leb,
  ◌==◌, if◌then◌else◌, length,
}

-- "oak", "river", "robin"
abbrev oak : Text
oak = 111 ∷ 97 ∷ 107 ∷ []

abbrev river : Text
river = 114 ∷ 105 ∷ 118 ∷ 101 ∷ 114 ∷ []

abbrev robin : Text
robin = 114 ∷ 111 ∷ 98 ∷ 105 ∷ 110 ∷ []

-- "rivr", "email"
abbrev rivr : Text
rivr = 114 ∷ 105 ∷ 118 ∷ 114 ∷ []

abbrev email : Text
email = 101 ∷ 109 ∷ 97 ∷ 105 ∷ 108 ∷ []

abbrev book : Codebook
book = record { list = oak ∷ river ∷ robin ∷ []; words = 2 }

one_edit : edit_distance rivr river ≡ 1
unfolding edit_distance
one_edit = refl

edit_distance-IsLeast_example : IsLeast rivr river (edit_distance rivr river)
edit_distance-IsLeast_example = edit_distance-IsLeast rivr river

repairs_river : repair_word rivr book.list ≡ river ∷ []
unfolding repair_word edit_distance text_eq
repairs_river = refl

repair_word-IsRepair_example : IsRepair rivr book.list (repair_word rivr book.list)
repair_word-IsRepair_example = repair_word-IsRepair rivr book.list

abbrev slots : List (List Text)
slots = (oak ∷ robin ∷ []) ∷ (river ∷ []) ∷ []

candidate_codes-choices_example :
    candidate_codes slots
    ≡ (if leb (length (choices slots)) 24 then some (map join (choices slots)) else none)
candidate_codes-choices_example =
    candidate_codes-choices slots ((λ e. ground arith), ((λ e. ground arith), tt))

abbrev as_is : Text → Text
as_is t = t

abbrev is_blank : ℕ → Bool
is_blank c = c == 32

-- the mapping of "{{pii:email:oak-river}}", to "A"
abbrev stored : Text → Option Text
stored p =
    if text_eq p
      (format_placeholder (euroclaw.Redaction.Mappings.PiiKind.email) (oak ++ 45 ∷ river))
    then some (65 ∷ [])
    else none

abbrev written : Text
written = oak ++ 32 ∷ rivr

recovers : (recover_frame as_is is_blank book book stored email written).0 ≡ some (65 ∷ [])
unfolding recover_frame repair_word repair_kind candidate_codes edit_distance text_eq has_value
recovers = refl

recover_frame-IsSafe_example :
    IsAsWritten as_is is_blank book book stored email
      (split_words (is_separator is_blank) written [])
      (65 ∷ [])
    ⊎ IsRepaired as_is is_blank book book stored email
        (split_words (is_separator is_blank) written [])
        (65 ∷ [])
recover_frame-IsSafe_example =
    recover_frame-IsSafe as_is is_blank book book stored email written (65 ∷ []) recovers

abbrev here : Container
here = record { scope = some "claw"; scope_id = some "here" }

-- A store with one mapping, of another container.
abbrev elsewhere : Mappings
elsewhere = record {
  by_key =
      record {
        placeholder = "p";
        original = "Ann";
        original_hash = none;
        kind = PiiKind.name;
        scope = some "claw";
        scope_id = some "there";
        created_at = 7;
      }
      ∷ [];
  subject_to_keys = [];
}

-- A text with one match from its second unit on.
abbrev shown : Text
shown = 72 ∷ 123 ∷ 125 ∷ 33 ∷ []

abbrev scanned : Bool → Text → List Frame
scanned recover text =
    record { start = 1; whole = 123 ∷ 125 ∷ []; kind_raw = email; identity_raw = written } ∷ []

abbrev as_p : Text → String
as_p t = "p"

abbrev as_x : String → Text
as_x s = 88 ∷ []

rehydrate_text-foreign_example :
    rehydrate_text as_is is_blank book book
      (resolve_text as_x as_p here elsewhere)
      scanned
      true
      shown
    ≡ shown
unfolding drop
rehydrate_text-foreign_example =
    rehydrate_text-foreign as_is is_blank book book as_x as_p here elsewhere scanned true shown
      (refl, tt) (ground arith, refl, tt)
