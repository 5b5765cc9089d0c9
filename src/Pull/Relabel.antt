-- ===== src/Pull/Relabel.antt =====
-- internal/unpacker/pull.go: the relabelling of an image to OCI media types (`ociImage`), and the
-- question which manifests need it (`craneFallbackReason`).
use unpacker.Base.{
  ◌≡◌, ◌≢◌, ◌⊎◌, ◌↔◌, refl, ap, Bool, true, false, List, [], ◌∷◌, map, Option, none, some,
}
use unpacker.Base.{if◌then◌else◌, All, arith}
use unpacker.Base.Text.{Bytes, codes, bytes_eq, bytes_eq_iff, has_prefix}
use unpacker.Base.Word.{I64}
use unpacker.Errors.{Result, ok, err, wrap_result}
use unpacker.Pull.Budget.{Descriptor}

-- The media types that go-containerregistry and the image-spec declare.
pub record MediaTypes : Type 0 where
  pub image_index : Bytes
  pub image_manifest : Bytes
  pub image_config : Bytes
  pub docker_layer : Bytes
  pub docker_uncompressed_layer : Bytes
  pub docker_foreign_layer : Bytes
  pub oci_layer : Bytes
  pub oci_uncompressed_layer : Bytes
  pub oci_restricted_layer : Bytes

-- `v1.Manifest`, by the fields that the program reads or sets.
pub record Manifest : Type 0 where
  pub media_type : Bytes
  pub config : Descriptor
  pub layers : List Descriptor

pub data FallbackReason : Type 0 where
  docker_manifest oci_index oci_image : FallbackReason

module _ (T : MediaTypes) where
  -- `craneFallbackReason`: `none` is the source's empty string. `config_type` decodes the media type
  -- of a manifest's config.
  unfoldable pub crane_fallback_reason :
      (Bytes → Result Bytes) → Bytes → Bytes → Option FallbackReason
  unfolding bytes_eq has_prefix
  crane_fallback_reason config_type media_type content =
      if has_prefix media_type (codes "application/vnd.docker.")
      then some docker_manifest
      else if bytes_eq media_type T.image_index
      then some oci_index
      else if bytes_eq media_type T.image_manifest
      then elim (config_type content) [
        | err e ↦ none
        | ok config ↦ if bytes_eq config T.image_config then some oci_image else none
      ]
      else none

  unfoldable pub oci_layer_media_type : Bytes → Bytes
  unfolding bytes_eq
  oci_layer_media_type mt =
      if bytes_eq mt T.docker_layer
      then T.oci_layer
      else if bytes_eq mt T.docker_uncompressed_layer
      then T.oci_uncompressed_layer
      else if bytes_eq mt T.docker_foreign_layer
      then T.oci_restricted_layer
      else mt

  abbrev relabel_layer : Descriptor → Descriptor
  relabel_layer desc = record desc { media_type = oci_layer_media_type desc.media_type }

  -- `ociImage.RawManifest`, between decoding and encoding.
  unfoldable pub relabel : Manifest → Manifest
  unfolding oci_layer_media_type
  relabel m = record {
    media_type = T.image_manifest;
    config = record m.config { media_type = T.image_config };
    layers = map relabel_layer m.layers;
  }

  unfoldable pub raw_manifest :
      (Bytes → Result Manifest) → (Manifest → Result Bytes) → Result Bytes → Result Bytes
  unfolding relabel
  raw_manifest decode encode (err e) = err e
  raw_manifest decode encode (ok content) = elim (decode content) [
    | err e ↦ wrap_result "parse manifest" (err e)
    | ok m ↦ encode (relabel m)
  ]

  -- A manifest that describes content of its own, not an image or a list of images.
  abbrev pub IsArtifact : (Bytes → Result Bytes) → Bytes → Bytes → Type 0
  IsArtifact config_type media_type content =
      (has_prefix media_type (codes "application/vnd.docker.") ≡ false)
      × (media_type ≢ T.image_index)
      × (media_type ≡ T.image_manifest → config_type content ≢ ok T.image_config)

  -- The oras path keeps exactly the manifests of artifacts: every Docker manifest, every index and
  -- every manifest of a runnable image goes to crane. A manifest that cannot be decoded is kept.
  pub crane_fallback_reason-none_iff :
      (config_type : Bytes → Result Bytes) (media_type content : Bytes)
      → (crane_fallback_reason config_type media_type content ≡ none)
        ↔ IsArtifact config_type media_type content
  unfolding crane_fallback_reason
  crane_fallback_reason-none_iff config_type media_type content =
      read (has_prefix media_type (codes "application/vnd.docker.")) (config_type content)
    where
      read :
          (b : Bool) (r : Result Bytes)
          → ((if b
                then some docker_manifest
                else if bytes_eq media_type T.image_index
                then some oci_index
                else if bytes_eq media_type T.image_manifest
                then elim r [
                  | err e ↦ none
                  | ok config ↦ if bytes_eq config T.image_config then some oci_image else none
                ]
                else none)
              ≡ none)
            ↔ ((b ≡ false)
                × (media_type ≢ T.image_index)
                × (media_type ≡ T.image_manifest → r ≢ ok T.image_config))
      read true r = ground arith
      read false (err e) =
          ground
            (arith, bytes_eq_iff media_type T.image_index, bytes_eq_iff media_type T.image_manifest)
      read false (ok config) = ground (
        arith,
        bytes_eq_iff media_type T.image_index,
        bytes_eq_iff media_type T.image_manifest,
        bytes_eq_iff config T.image_config,
      )

  abbrev pub IsDockerLayer : Bytes → Type 0
  IsDockerLayer mt =
      (mt ≡ T.docker_layer) ⊎ (mt ≡ T.docker_uncompressed_layer) ⊎ (mt ≡ T.docker_foreign_layer)

  -- The OCI layer types are not Docker's.
  pub record AreApart : Type 0 where
    pub layer : ¬ IsDockerLayer T.oci_layer
    pub uncompressed : ¬ IsDockerLayer T.oci_uncompressed_layer
    pub restricted : ¬ IsDockerLayer T.oci_restricted_layer

  abbrev pub layer_blobs : List Descriptor → List (Bytes × I64)
  layer_blobs = map (λ (desc : Descriptor). (desc.digest, desc.size))

  -- The blobs of a manifest, by digest and size.
  abbrev pub blobs : Manifest → List (Bytes × I64)
  blobs m = (m.config.digest, m.config.size) ∷ layer_blobs m.layers

  same_blobs :
      (layers : List Descriptor) → layer_blobs (map relabel_layer layers) ≡ layer_blobs layers
  same_blobs [] = refl
  same_blobs (desc ∷ layers) = ap (λ z. (desc.digest, desc.size) ∷ z) (same_blobs layers)

  module _ (A : AreApart) where
    oci_layer_media_type-apart : (mt : Bytes) → ¬ IsDockerLayer (oci_layer_media_type mt)
    unfolding oci_layer_media_type
    oci_layer_media_type-apart mt h = ground (
      arith,
      A.layer,
      A.uncompressed,
      A.restricted,
      h,
      bytes_eq_iff mt T.docker_layer,
      bytes_eq_iff mt T.docker_uncompressed_layer,
      bytes_eq_iff mt T.docker_foreign_layer,
    )

    oci_layer_media_type-fixed : (mt : Bytes) → ¬ IsDockerLayer mt → oci_layer_media_type mt ≡ mt
    unfolding oci_layer_media_type
    oci_layer_media_type-fixed mt h = ground (
      arith,
      h,
      bytes_eq_iff mt T.docker_layer,
      bytes_eq_iff mt T.docker_uncompressed_layer,
      bytes_eq_iff mt T.docker_foreign_layer,
    )

    relabel_layers-apart :
        (layers : List Descriptor)
        → All (λ (desc : Descriptor). ¬ IsDockerLayer desc.media_type) (map relabel_layer layers)
    relabel_layers-apart [] = tt
    relabel_layers-apart (desc ∷ layers) =
        (oci_layer_media_type-apart desc.media_type, relabel_layers-apart layers)

    relabel_layers-fixed :
        (layers : List Descriptor)
        → All (λ (desc : Descriptor). ¬ IsDockerLayer desc.media_type) layers
        → map relabel_layer layers ≡ layers
    relabel_layers-fixed [] h i = []
    relabel_layers-fixed (desc ∷ layers) (h, hs) i =
        record desc { media_type = oci_layer_media_type-fixed desc.media_type h i }
        ∷ relabel_layers-fixed layers hs i

    -- A relabelled manifest names no Docker type for itself, its config or a layer, it names the
    -- same blobs in the same order, and relabelling it again changes nothing; this for OCI layer
    -- types that are not Docker's.
    pub relabel-IsOci :
        (m : Manifest)
        → ((relabel m).media_type ≡ T.image_manifest)
          × ((relabel m).config.media_type ≡ T.image_config)
          × All (λ (desc : Descriptor). ¬ IsDockerLayer desc.media_type) (relabel m).layers
          × (blobs (relabel m) ≡ blobs m)
          × (relabel (relabel m) ≡ relabel m)
    unfolding relabel
    relabel-IsOci m = (
      refl,
      refl,
      relabel_layers-apart m.layers,
      ap (λ z. (m.config.digest, m.config.size) ∷ z) (same_blobs m.layers),
      λ i. record (relabel m) {
        layers =
            relabel_layers-fixed (map relabel_layer m.layers) (relabel_layers-apart m.layers) i;
      },
    )
