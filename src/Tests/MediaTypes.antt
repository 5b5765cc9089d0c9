-- ===== src/Tests/MediaTypes.antt =====
-- The media types that a bare word covers.
use unpacker.Base.{arith, ◌≡◌, ◌↔◌, refl, [], ◌∷◌, true, false}
use unpacker.Base.Text.{Bytes, codes, contains_byte}
use unpacker.Unpack.MediaType.{allowed_media_type, type_matches, equal_fold}
use unpacker.Unpack.Components.{IsWord}
use unpacker.Unpack.Words.{IsAscii, type_matches_iff}

abbrev chart : Bytes
chart = codes "application/vnd.cncf.helm.v1.tar+gzip"

covered : allowed_media_type chart (codes "flux" ∷ codes "Helm" ∷ []) ≡ true
unfolding allowed_media_type
covered = refl

not_inside : allowed_media_type (codes "application/vnd.nothelm.v1") (codes "helm" ∷ []) ≡ false
unfolding allowed_media_type
not_inside = refl

bare : contains_byte 47 (codes "Helm") ≡ false
unfolding contains_byte
bare = refl

is_ascii : IsAscii (codes "Helm")
is_ascii = (omega arith, (omega arith, (omega arith, (omega arith, tt))))

type_matches_iff_example :
    (type_matches chart (codes "Helm") ≡ true)
    ↔ ((part : Bytes) × IsWord chart part × (equal_fold part (codes "Helm") ≡ true))
type_matches_iff_example = type_matches_iff chart (codes "Helm") bare is_ascii

-- The Kelvin sign folds to k.
kelvin : allowed_media_type (0xe2 ∷ 0x84 ∷ 0xaa ∷ codes "ube") (codes "kube" ∷ []) ≡ true
unfolding allowed_media_type
kelvin = refl
