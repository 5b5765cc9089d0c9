-- ===== src/Tests/Workspace.antt =====
-- What a run and an unpacking leave alone.
use unpacker.Base.{arith, false}
use unpacker.Base.{◌≡◌, ◌⊎◌, refl, subst, inl, List, All}
use unpacker.Base.Text.{Bytes, codes, bytes_eq, has_prefix}
use unpacker.Path.{split_from, split, join_slash, is_rooted, back, push, walk, render, clean, join}
use unpacker.Path.Confine.{IsBelow}
use unpacker.Path.Names.{IsPlain}
use unpacker.Errors.{Error, Result, ok, err}
use unpacker.System.{World, within}
use unpacker.System.Settled.{Settled}
use unpacker.Pull.Budget.{Descriptor}
use unpacker.Pull.Credentials.{Repository}
use unpacker.Pull.Oras.{or_latest, blob_name}
use unpacker.Pull.Settled.{tmp_dir, manifest_path}
use unpacker.Unpack.{unpack_into, unpack, publish, staging_dir}
use unpacker.Unpack.Layers.{annotation, cut_colon}
use unpacker.Unpack.Confined.{UmociStays}
use unpacker.Unpack.Atomic.{OnlyStaged, unpack-OnlyStaged}
use unpacker.Command.{run}
use unpacker.Command.Workspace.{in_workspace, OnTheWay, run-Settled}
use unpacker.Pull.Served.{IsServed}
use unpacker.Pull.Answered.{pull-IsServed}
use unpacker.Tests.Worlds.{registry, libraries, offline, sigstore, tools, blob, config, start}
use unpacker.Command.Followed.{run-IsServed}
use unpacker.Pull.Crane.{pull}
use unpacker.Tests.Running.{two, pulled, pulls, signed, after, run_goes}

blob_a-IsBelow : IsBelow (tmp_dir config) (join (tmp_dir config) (blob_name (blob (codes "a"))))
unfolding blob_name annotation cut_colon bytes_eq split_from split join_slash is_rooted back push
    walk render clean join
blob_a-IsBelow = (codes "a", refl, ((refl, refl, refl), tt))

served-IsBelow :
    (repo : Repository) (desc : Descriptor) (body content : Bytes) (layers : List Descriptor)
    → (registry two).fetch_reference repo (or_latest repo.reference.reference) ≡ ok (desc, body)
    → (registry two).read_all desc body ≡ ok content
    → (registry two).parse_layers content ≡ ok layers
    → All (λ layer. IsBelow (tmp_dir config) (join (tmp_dir config) (blob_name layer))) layers
served-IsBelow repo desc body content layers served verified parsed =
    subst below parsed (blob_a-IsBelow, tt)
  where
    below : Result (List Descriptor) → Type 0
    below (ok l) =
        All (λ layer. IsBelow (tmp_dir config) (join (tmp_dir config) (blob_name layer))) l
    below (err e) = Unit

abbrev IsEncoded : Descriptor → Type 0
IsEncoded desc = IsPlain desc.digest

m-IsPlain : IsEncoded (blob (codes "m"))
unfolding bytes_eq
m-IsPlain = ((refl, refl, refl), ground arith)

s-IsPlain : IsEncoded (blob (codes "s"))
unfolding bytes_eq
s-IsPlain = ((refl, refl, refl), ground arith)

t-IsPlain : IsEncoded (blob (codes "t"))
unfolding bytes_eq
t-IsPlain = ((refl, refl, refl), ground arith)

listed-IsPlain :
    (repo : Repository) (subject : Bytes) (descs : List Descriptor)
    → (registry two).referrers repo subject ≡ ok descs
    → All IsEncoded descs
listed-IsPlain repo subject descs listed = subst plain listed (s-IsPlain, (t-IsPlain, tt))
  where
    plain : Result (List Descriptor) → Type 0
    plain (ok l) = All IsEncoded l
    plain (err e) = Unit

signed-IsPlain :
    (repo : Repository) (subject : Bytes) (descs : List Descriptor)
    → (registry signed).referrers repo subject ≡ ok descs
    → All IsEncoded descs
signed-IsPlain repo subject descs listed = subst plain listed (s-IsPlain, tt)
  where
    plain : Result (List Descriptor) → Type 0
    plain (ok l) = All IsEncoded l
    plain (err e) = Unit

layers-IsPlain :
    (repo : Repository) (desc : Descriptor) (content : Bytes)
    → (registry two).fetch_all repo desc ≡ ok content
    → All IsEncoded ((registry two).parse_referrer content).0.layers
layers-IsPlain repo desc content served = (m-IsPlain, tt)

umoci_refused : UmociStays tools config
umoci_refused tmp w q _ = inl refl

run-Settled_example :
    Settled
      (in_workspace sigstore.in_tuf_cache config)
      (OnTheWay config)
      start
      (run (libraries two) config start).1
run-Settled_example =
    run-Settled (libraries two) config served-IsBelow listed-IsPlain layers-IsPlain
      (λ w q _. inl refl) (λ img raw tag w q _. inl refl) umoci_refused start

unpack-OnlyStaged_example :
    ((e : Error) × ((unpack tools config start).0 ≡ err e)
      × OnlyStaged config start (unpack tools config start).1)
    ⊎ ((u : World) × (x : World) × (unpack_into tools config (staging_dir config) u ≡ (ok tt, x))
        × OnlyStaged config start x
        × (unpack tools config start ≡ publish config (ok tt) x))
unpack-OnlyStaged_example = unpack-OnlyStaged tools config umoci_refused start

pull-IsServed_example : IsServed (registry two) offline config (codes "m") pulled.disk
pull-IsServed_example =
    pull-IsServed (registry two) offline config served-IsBelow start pulled (codes "m") pulls

outside_cache : sigstore.in_tuf_cache (manifest_path config) ≡ false
unfolding within has_prefix bytes_eq split_from split join_slash is_rooted push walk render clean
    join
outside_cache = refl

run-IsServed_example :
    (digest : Bytes) × (u : World) × (x : World) × (pull (registry signed) offline config start
      ≡ (ok digest, u))
    × IsServed (registry signed) offline config digest x.disk
    × (unpack tools config x ≡ (ok tt, after))
run-IsServed_example =
    run-IsServed (libraries signed) config served-IsBelow signed-IsPlain layers-IsPlain
      outside_cache start after run_goes
