-- ===== src/Domain/Attachments.antt =====
-- internal/domain/attachments.go: the files that come with a message. `decoded` stands for
-- base64's strict decoding: the number of bytes of a text's data, or none if it is no base64.
use Prim.Native.Char.{code}
use Prim.Native.String.{String}
use codexbot.Common.{
  ℕ, ◌+◌, ◌*◌, ◌/◌, ◌≤◌, ◌≡◌, inl, inr, Bool, false, ◌||◌, ◌&&◌, List, [], ◌∷◌, ◌++◌, Option, none,
  some, arith, leb, ltb, eqb, ◌==◌, if◌then◌else◌, length, All, Bool-cases, Option-cases,
}
use codexbot.Domain.Text.{concat, byte_length, is_blank, trim_space}

pub record Attachment : Type 0 where
  pub name : String
  -- the field data
  pub contents : String

abbrev pub max_attachments : ℕ
max_attachments = 8

-- 10 MiB
abbrev pub max_attachment_bytes : ℕ
max_attachment_bytes = 10 * 1048576

-- base64.StdEncoding.EncodedLen
abbrev pub encoded_len : ℕ → ℕ
encoded_len n = (n + 2) / 3 * 4

-- '/', '\' and the characters of unicode.IsControl
abbrev pub is_refused_char : ℕ → Bool
is_refused_char c = eqb c 0x2F || eqb c 0x5C || leb c 0x1F || leb 0x7F c && leb c 0x9F

unfoldable pub has_refused_char : String → Bool
has_refused_char String.[] = false
has_refused_char (String.◌∷◌ c s) = is_refused_char (code c) || has_refused_char s

-- A file name that is refused. The texts of a decoded message are valid UTF-8.
unfoldable pub is_bad_name : String → Bool
unfolding has_refused_char
is_bad_name name =
    is_blank name
    || name == "."
    || name == ".."
    || ltb 255 (byte_length name)
    || has_refused_char name

pub data AttachmentError : Type 0 where
  too_many bad_name too_large bad_data : AttachmentError

-- The files after the first ones, which have `total` bytes.
unfoldable pub check_attachments :
    (String → Option ℕ) → ℕ → List Attachment → Option AttachmentError
unfolding is_bad_name
check_attachments decoded total [] = none
check_attachments decoded total (a ∷ rest) =
    if is_bad_name a.name
    then some bad_name
    else if ltb (encoded_len max_attachment_bytes) (byte_length a.contents)
    then some too_large
    else elim (decoded a.contents) [
      | none ↦ some bad_data
      | some n ↦
          let later = check_attachments decoded (total + n) rest in
          if ltb max_attachment_bytes (total + n) then some too_large else later
    ]

-- ValidateAttachments
unfoldable pub validate_attachments : (String → Option ℕ) → List Attachment → Option AttachmentError
unfolding check_attachments
validate_attachments decoded files =
    if ltb max_attachments (length files) then some too_many else check_attachments decoded 0 files

-- strings.Join(lines, "\n")
unfoldable pub join_lines : List String → String
join_lines [] = ""
join_lines (s ∷ []) = s
join_lines (s ∷ t ∷ rest) = concat s (concat "\n" (join_lines (t ∷ rest)))

unfoldable pub file_lines : List Attachment → List String
file_lines [] = []
file_lines (a ∷ rest) = concat "Attached file: " a.name ∷ file_lines rest

-- AttachmentPrompt
unfoldable pub attachment_prompt : String → List Attachment → String
unfolding join_lines file_lines
attachment_prompt prompt [] = prompt
attachment_prompt prompt (a ∷ rest) =
    join_lines
      ((if trim_space prompt == "" then [] else trim_space prompt ∷ []) ++ file_lines (a ∷ rest))

-- The bytes of the files, where all can be decoded.
abbrev pub total_bytes : (String → Option ℕ) → List Attachment → ℕ
total_bytes decoded [] = 0
total_bytes decoded (a ∷ rest) =
    (elim (decoded a.contents) [ none ↦ 0 | some n ↦ n ]) + total_bytes decoded rest

abbrev pub IsGood : (String → Option ℕ) → Attachment → Type 0
IsGood decoded a = (is_bad_name a.name ≡ false) × ((n : ℕ) × (decoded a.contents ≡ some n))

check_sound :
    (decoded : String → Option ℕ) (total : ℕ) (files : List Attachment)
    → total ≤ max_attachment_bytes
    → check_attachments decoded total files ≡ none
    → All (IsGood decoded) files × (total + total_bytes decoded files ≤ max_attachment_bytes)
unfolding check_attachments
check_sound decoded total [] room h = (tt, omega (arith, room))
check_sound decoded total (a ∷ rest) room h =
    let good : is_bad_name a.name ≡ false = ground (arith, h) in
    let short : ltb (encoded_len max_attachment_bytes) (byte_length a.contents) ≡ false =
      ground (arith, h, good) in
    elim (Option-cases (decoded a.contents)) [
      | inl e ↦ absurd (ground (arith, h, good, short, e))
      | inr (n, e) ↦ elim (Bool-cases (ltb max_attachment_bytes (total + n))) [
        | inl over ↦ absurd (ground (arith, h, good, short, e, over))
        | inr fits ↦
            let (all, sum) =
              check_sound decoded (total + n) rest (ground (arith, fits))
                (rw (good, short, e, fits) at h) in
            (((good, (n, e)), all), rw e (omega (arith, sum)))
      ]
    ]

-- Files that pass have names that are not refused and data that is base64; they are no more than
-- 8, and together no more than 10 MiB.
pub validate_sound :
    (decoded : String → Option ℕ) (files : List Attachment)
    → validate_attachments decoded files ≡ none
    → All (IsGood decoded) files
      × (length files ≤ max_attachments)
      × (total_bytes decoded files ≤ max_attachment_bytes)
unfolding validate_attachments
validate_sound decoded files h = elim (Bool-cases (ltb max_attachments (length files))) [
  | inl e ↦ absurd (ground (arith, h, e))
  | inr e ↦
      let (all, sum) = check_sound decoded 0 files (omega arith) (rw e at h) in
      (all, ground (arith, e), omega (arith, sum))
]
