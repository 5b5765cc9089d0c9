-- ===== src/Referrers/Numbered.antt =====
-- The names of layers that have no other name.
use unpacker.Base.{ℕ, ◌≡◌, drop, []}
use unpacker.Base.Decimal.{value_of, decimal-spelled}
use unpacker.Referrers.Fetch.{or_numbered}

-- The position of a layer can be read back from the name that it is given where it has no other, as
-- the number behind the six bytes `layer-`, so two such layers never share a file.
or_numbered-value_of : (i : ℕ) → value_of 0 (drop 6 (or_numbered i [])) ≡ i
unfolding or_numbered
or_numbered-value_of i = decimal-spelled i
