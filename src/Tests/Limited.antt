-- ===== src/Tests/Limited.antt =====
-- What a run and an unpacking copy at most.
use unpacker.Base.{◌+◌, ◌*◌, ◌≤◌, ◌≡◌, refl, subst, arith, List, [], length-take}
use unpacker.Base.Text.{Bytes}
use unpacker.Errors.{Result, ok, err}
use unpacker.Limits.{or_default, with_defaults}
use unpacker.Extract.Budget.{IsResolved}
use unpacker.Extract.Bounded.{WithinLimit}
use unpacker.Pull.Budget.{Descriptor, AreNat}
use unpacker.Pull.Credentials.{Repository}
use unpacker.Pull.Oras.{or_latest}
use unpacker.Unpack.{unpack}
use unpacker.Unpack.Bounded.{unpack-WithinLimit}
use unpacker.Command.{Libraries, run}
use unpacker.Command.Bounded.{run-WithinLimit}
use unpacker.Tests.Worlds.{libraries, tools, config, start}
use unpacker.Tests.Landing.{bounded_registry, listed-AreNat}

abbrev bounded : Libraries
bounded = record (libraries []) { registry = bounded_registry }

limits-IsResolved : IsResolved (with_defaults config.limits)
unfolding with_defaults or_default
limits-IsResolved = omega arith

-- The one layer that the manifest has.
layers-AreNat :
    (repo : Repository) (desc : Descriptor) (body content : Bytes) (layers : List Descriptor)
    → bounded.registry.fetch_reference repo (or_latest repo.reference.reference) ≡ ok (desc, body)
    → bounded.registry.read_all desc body ≡ ok content
    → bounded.registry.parse_layers content ≡ ok layers
    → AreNat layers
layers-AreNat repo desc body content layers served verified parsed =
    subst sizes parsed (omega arith, tt)
  where
    sizes : Result (List Descriptor) → Type 0
    sizes (ok l) = AreNat l
    sizes (err x) = Unit

unpack-WithinLimit_example :
    WithinLimit (with_defaults config.limits).max_total_bytes start (unpack tools config start)
unpack-WithinLimit_example =
    unpack-WithinLimit tools config (λ name args w. refl) limits-IsResolved start

run-WithinLimit_example :
    (run bounded config start).1.copied
    ≤ start.copied + (3 * (with_defaults config.limits).max_total_bytes + 1)
run-WithinLimit_example =
    run-WithinLimit bounded config (record { total_word = omega arith; file_word = omega arith })
      limits-IsResolved (λ repo desc body. omega (arith, length-take desc.size body)) layers-AreNat
      listed-AreNat (λ repo desc content served. (omega arith, tt)) (λ path w. refl)
      (λ path img raw tag w. refl) (λ name args w. refl) start
