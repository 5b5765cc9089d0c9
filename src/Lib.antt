-- ===== src/Lib.antt =====
-- The unpacker pulls an OCI artifact or a container image from a registry, verifies it on request,
-- and unpacks it into image/ of an output directory (cmd/unpacker/main.go). This library models the
-- package internal/unpacker and the command, and states what its operations do.
--
-- Which file models which part:
--   Path        path/filepath as the program uses it: Clean, Join, Dir, Base on slash-separated
--               names; its children show where a joined path may lead.
--   Errors      sentinels, wrapping by %w, errors.Is and errors.As.
--   Exit        internal/unpacker/exit.go: ExitCode.
--   System      a disk, the calls of os that change it, each of which may fail, and programs over
--               them (M). A run is a function of the disk and of a list of faults: for each call
--               whether it fails, and after how much of its work.
--   Limits, Config, Compression, Extract, Unpack
--               internal/unpacker/unpack.go: Limits.withDefaults, Config, sniffCompression,
--               ExtractTar (extract_tar, with extract_entry for one round of its loop and
--               copy_limited for the bounded copy of one file), describeSkipped,
--               allowedMediaType, extractLayers, runUmoci, CopyFiles, unpackInto and Unpack (unpack).
--   Sorting     sort.Strings, as unpack.go and verify.go call it.
--   Auth        internal/unpacker/auth.go: Resolve.
--   Keychain    internal/unpacker/keychain.go: configFileKeychain.Resolve (resolve_target).
--   Verify      internal/unpacker/verify.go: VerifyConfig (Config), trustedMaterial,
--               observerOptions and policyOptions (Trust), observedTimestamp (Timestamp),
--               newSignatureVerifier, bundlePaths and Verify with its loop (Bundles).
--   Report      internal/unpacker/referrers.go and verify.go: Result, Referrer, Verification and
--               WriteResult (write_result).
--   Referrers   internal/unpacker/referrers.go: the names of directories and files (Names),
--               downloadReferrer and FetchReferrers (Fetch).
--   Pull        internal/unpacker/pull.go: downloadBudget (Budget), fetchBlobToFile (Blob), the
--               credentials that both clients are given (Credentials), craneFallbackReason and the
--               relabelling of images (Relabel), pullWithOras (Oras), pullWithCrane and Pull
--               (Crane).
--   Command     cmd/unpacker/main.go: the run closure of rootCmd, stage by stage (run_root, run,
--               referrers_stage, verify_stage, unpack_stage), main, and the flag table (Defaults).
--   Tests       runs on small inputs.
-- How they interact: Command calls Pull, Referrers, Verify and Unpack in this order and passes the
-- digest of the pull and the record of the referrers along; Unpack reads what a pull has left in
-- tmp/, filters the layers by media type, and calls Extract for each allowed one; Extract guards each
-- entry by Path and writes through System; Pull charges declared sizes against the same Limits before
-- any byte is fetched. Files named Confined and Settled follow each operation to the paths that it
-- changes: Confined is about one directory, Settled about a region that several stages share. Files
-- named Bounded follow the bytes that are copied, from Extract and Pull up to Command.
--
-- int64 is its bit pattern below 2^64, with wrapping sums and signed comparison (Base/Word).
-- Text is a list of bytes; where Go reads it by runes, Base/Runes decodes UTF-8. Loops over archives,
-- layers, referrers, bundles and entries are recursions on the list that the source walks. The one
-- use of fuel is the printing of a number, whose digits are fewer than the number plus one.
--
-- Parameters: gzip, zstd and the tar reader (Readers), the decoders of JSON and the run of a
-- command (Tools), the blob fetcher and VerifyReader of oras-go (Fetcher), the rest of oras-go with the
-- parsers of references and digests (Registry), go-containerregistry (Crane), sigstore-go with the
-- crypto libraries (Sigstore, Engine), the loader of docker/cli (DockerConfig), the encoder of
-- result.json and the environment. The fetches of a trusted root by TUF are programs on the disk that
-- write to a cache of sigstore-go only, which Sigstore has as a law beside them.
--
-- Not modelled: cobra's parsing of flags (Command/Defaults has their default values), the network
-- under the clients, the text of the other log lines and of error messages beyond what tells them
-- apart, the panic of Digest.Encoded on a digest without a colon (a parameter that
-- answers on every text), the case folding of letters beyond ASCII in --mediatype values that are not
-- ASCII themselves, symbolic links that are already on the disk, and hard links. Permissions
-- are recorded and never deny a call.
pub mod Base
pub mod Path
pub mod Errors
pub mod Exit
pub mod System
pub mod Limits
pub mod Compression
pub mod Extract
pub mod Auth
pub mod Verify
pub mod Config
pub mod Report
pub mod Referrers
pub mod Pull
pub mod Unpack
pub mod Sorting
pub mod Keychain
pub mod Command
mod Tests
