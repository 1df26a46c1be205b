-- ===== src/SceneChat/Image.antt =====
-- _decode_image_with_metadata of backend/modeldeck/workers/scenechat_worker.py. base64.b64decode and PIL
-- are arguments. Texts are code points.
pub mod Accepted
use model_deck.Base.{
  ℕ, ◌+◌, ◌*◌, ◌/◌, ◌-◌, String, Bool, true, false, not, ◌&&◌, ◌||◌, ◌==◌, Option, none, some, List,
  [], ◌∷◌, length, ltb, leb, if◌then◌else◌,
}
use model_deck.Text.{codes, same_text, starts_with}
use model_deck.Autoregressive.PrefixCache.{take, drop}
use model_deck.Autoregressive.Generation.{ends_with}

abbrev pub max_image_bytes : ℕ
max_image_bytes = 8388608

abbrev pub max_image_dimension : ℕ
max_image_dimension = 4096

abbrev pub max_image_pixels : ℕ
max_image_pixels = 16000000

pub data Format : Type 0 where
  jpeg png other_format : Format

-- SUPPORTED_MIME_TYPES
unfoldable pub expected_format : List ℕ → Option Format
expected_format mime =
    if same_text mime (codes "image/jpeg")
    then some jpeg
    else if same_text mime (codes "image/png")
    then some png
    else none

abbrev pub same_format : Format → Format → Bool
same_format jpeg jpeg = true
same_format png png = true
same_format other_format other_format = true
same_format _ _ = false

-- What PIL says of the bytes: its format and size, and whether it can be loaded and converted.
pub record Source : Type 0 where
  pub format : Format
  pub width : ℕ
  pub height : ℕ
  pub is_loadable : Bool

pub data Decoded : Type 0 where
  -- the source, and the number of its bytes
  decoded : Source → ℕ → Decoded
  unsupported_image invalid_image image_too_large image_mismatch image_dimensions : Decoded

-- s.partition(","), none without a separator
unfoldable pub partition : List ℕ → Option (List ℕ × List ℕ)
partition [] = none
partition (c ∷ s) =
    let rest = partition s in
    if c == b','
    then some ([], s)
    else elim rest [ none ↦ none | some (header, encoded) ↦ some (c ∷ header, encoded) ]

-- header[5:-7]
abbrev pub mime_of : List ℕ → List ℕ
mime_of header = take (length header - 12) (drop 5 header)

abbrev pub is_base64_header : List ℕ → Bool
is_base64_header header = starts_with header (codes "data:") && ends_with header (codes ";base64")

abbrev pub too_large : Source → Bool
too_large source =
    ltb max_image_dimension source.width
    || ltb max_image_dimension source.height
    || ltb max_image_pixels (source.width * source.height)

module _ (b64decode : List ℕ → Option (List ℕ)) (open_image : List ℕ → Option Source) where
  -- the second `try`
  unfoldable pub read_image : Format → List ℕ → Decoded
  read_image expected bytes = elim (open_image bytes) [
    | none ↦ invalid_image
    | some source ↦
        if not (same_format source.format expected)
        then image_mismatch
        else if too_large source
        then image_dimensions
        else if not source.is_loadable
        then invalid_image
        else decoded source (length bytes)
  ]

  -- the payload
  unfoldable pub decode_payload : Format → List ℕ → Decoded
  decode_payload expected encoded =
      if length encoded == 0
      then invalid_image
      else if ltb (((max_image_bytes + 2) / 3) * 4 + 4) (length encoded)
      then image_too_large
      else elim (b64decode encoded) [
        | none ↦ invalid_image
        | some bytes ↦
            if ltb max_image_bytes (length bytes)
            then image_too_large
            else read_image expected bytes
      ]

  -- _decode_image_with_metadata
  unfoldable pub decode_image : List ℕ → Decoded
  decode_image data_url =
      if starts_with data_url (codes "data:image/svg+xml")
      then unsupported_image
      else elim (partition data_url) [
        | none ↦ invalid_image
        | some (header, encoded) ↦
            if not (is_base64_header header)
            then invalid_image
            else elim (expected_format (mime_of header)) [
              | none ↦ unsupported_image
              | some expected ↦ decode_payload expected encoded
            ]
      ]
