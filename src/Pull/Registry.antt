-- ===== src/Pull/Registry.antt =====
-- What pull.go and referrers.go call of oras-go, encoding/json and go-digest.
use unpacker.Base.{List, Option}
use unpacker.Base.Text.{Bytes}
use unpacker.Errors.{Error, Result}
use unpacker.Pull.Budget.{Descriptor}
use unpacker.Pull.Blob.{Fetcher}
use unpacker.Pull.Credentials.{Reference, Repository}
use unpacker.Pull.Relabel.{MediaTypes}

-- What a referrer's manifest says; `subject` is the digest of its subject, if it names one.
pub record ReferrerManifest : Type 0 where
  pub artifact_type : Bytes
  pub config_media_type : Bytes
  pub layers : List Descriptor
  pub subject : Option Bytes

pub record Registry (Body : Type 0) : Type 0 where
  pub types : MediaTypes
  pub parse_reference : Bytes → Result Reference
  -- a client that is set up for a repository, as a source of blobs
  pub client : Repository → Fetcher Body
  pub fetch_reference : Repository → Bytes → Result (Descriptor × Body)
  -- `content.ReadAll` and `content.FetchAll`, which verify what they return
  pub read_all : Descriptor → Body → Result Bytes
  pub fetch_all : Repository → Descriptor → Result Bytes
  -- the whole listing of the referrers of a digest
  pub referrers : Repository → Bytes → Result (List Descriptor)
  -- the decoders: a manifest's config type and layers, and a referrer's manifest, which is filled as
  -- far as it could be read where there is an error
  pub config_type : Bytes → Result Bytes
  pub parse_layers : Bytes → Result (List Descriptor)
  pub parse_referrer : Bytes → ReferrerManifest × Option Error
  pub parse_digest : Bytes → Result Bytes
  pub encoded : Bytes → Bytes
