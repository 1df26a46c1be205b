-- ===== src/SceneChat/Image/Accepted.antt =====
-- Which images backend/modeldeck/workers/scenechat_worker.py lets in.
use model_deck.Base.{
  ℕ, ◌+◌, ◌*◌, ◌/◌, ◌≤◌, ◌≡◌, inl, inr, Bool, true, false, not, ◌&&◌, ◌==◌, Option, none, some,
  List, length, ltb, leb, arith, Option-cases,
}
use model_deck.Text.{codes, starts_with}
use model_deck.SceneChat.Image.{
  max_image_bytes, max_image_dimension, max_image_pixels, Format, same_format, expected_format,
  Source, Decoded, decoded, partition, mime_of, is_base64_header, read_image, decode_payload,
  decode_image,
}

abbrev pub is_decoded : Decoded → Bool
is_decoded (decoded source n) = true
is_decoded _ = false

-- The limits on the bytes and on what they show.
abbrev pub is_within : Format → List ℕ → Source → Bool
is_within expected bytes source =
    leb (length bytes) max_image_bytes
    && same_format source.format expected
    && leb source.width max_image_dimension
    && leb source.height max_image_dimension
    && leb (source.width * source.height) max_image_pixels
    && source.is_loadable

module _ (b64decode : List ℕ → Option (List ℕ)) (open_image : List ℕ → Option Source) where
  -- A payload is acceptable if it is base64 of bytes that are an image of the format within the limits.
  unfoldable pub is_acceptable_payload : Format → List ℕ → Bool
  is_acceptable_payload expected encoded = elim (b64decode encoded) [
    | none ↦ false
    | some bytes ↦ elim (open_image bytes) [
      | none ↦ false
      | some source ↦ is_within expected bytes source
    ]
  ]

  unfoldable pub is_acceptable : List ℕ → Bool
  is_acceptable data_url =
      not (starts_with data_url (codes "data:image/svg+xml")) && (elim (partition data_url) [
        | none ↦ false
        | some (header, encoded) ↦
            is_base64_header header && (elim (expected_format (mime_of header)) [
              | none ↦ false
              | some expected ↦ is_acceptable_payload expected encoded
            ])
      ])

  read_image-is_within :
      (expected : Format) (bytes : List ℕ) (source : Source)
      → open_image bytes ≡ some source
      → leb (length bytes) max_image_bytes ≡ true
      → is_decoded (read_image b64decode open_image expected bytes)
        ≡ is_within expected bytes source
  unfolding read_image
  read_image-is_within expected bytes source o b = ground (arith, o, b)

  -- The documented behaviour: four characters of base64 are up to three bytes, and only the last four
  -- are fewer; and no bytes are no image.
  module _
      (strict_base64 : (s bytes : List ℕ)
        → b64decode s ≡ some bytes
        → (k : ℕ) × (length s ≡ 4 * k) × (length bytes ≤ 3 * k) × (3 * k ≤ length bytes + 2))
      (empty_is_no_image : (bytes : List ℕ)
        → (length bytes == 0) ≡ true
        → open_image bytes ≡ none) where
    -- What is refused by its text alone is empty or has too many bytes.
    refused_text :
        (encoded bytes : List ℕ)
        → b64decode encoded ≡ some bytes
        → (ltb (((max_image_bytes + 2) / 3) * 4 + 4) (length encoded) ≡ true
            → leb (length bytes) max_image_bytes ≡ false)
          × ((length encoded == 0) ≡ true → open_image bytes ≡ none)
    refused_text encoded bytes b =
        let (k, l, u, v) = strict_base64 encoded bytes b in
        (λ t. ground (arith, l, u, v, t), λ z. empty_is_no_image bytes (ground (arith, l, u, v, z)))

    decode_payload-is_acceptable_payload :
        (expected : Format) (encoded : List ℕ)
        → is_decoded (decode_payload b64decode open_image expected encoded)
          ≡ is_acceptable_payload expected encoded
    unfolding decode_payload is_acceptable_payload read_image
    decode_payload-is_acceptable_payload expected encoded =
        elim (Option-cases (b64decode encoded)) [
          | inl e ↦ ground (arith, e)
          | inr (bytes, e) ↦
              let (long, empty) = refused_text encoded bytes e in
              elim (Option-cases (open_image bytes)) [
                | inl o ↦ ground (arith, e, o)
                | inr (source, o) ↦
                    ground (arith, e, o, long, empty, read_image-is_within expected bytes source o)
              ]
        ]

    -- Where base64 and PIL behave as documented, the image of a request is decoded exactly if its data URL
    -- is one of base64 with a supported type that is not SVG, its payload is strict base64 of bytes
    -- within the limit, and these are an image of that type, within the limits of each side and of the
    -- pixels, that can be loaded. That the length of the text is tested first refuses nothing else.
    pub decode_image-is_acceptable :
        (data_url : List ℕ)
        → is_decoded (decode_image b64decode open_image data_url) ≡ is_acceptable data_url
    unfolding decode_image is_acceptable
    decode_image-is_acceptable data_url = elim (Option-cases (partition data_url)) [
      | inl e ↦ ground (arith, e)
      | inr ((header, encoded), e) ↦ elim (Option-cases (expected_format (mime_of header))) [
        | inl f ↦ ground (arith, e, f)
        | inr (expected, f) ↦
            ground (arith, e, f, decode_payload-is_acceptable_payload expected encoded)
      ]
    ]
