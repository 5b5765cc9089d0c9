-- ===== src/Extract/Modes.antt =====
-- The permissions of an extracted entry, checked over all 512 sets of permission bits.
use Prim.Native.Nat.{bit_and}
use unpacker.Base.{
  ℕ, zero, suc, ◌+◌, ◌≤◌, ◌≡◌, ◌<◌, refl, arith, Bool, true, false, ◌&&◌, ◌==◌, ltb, ==_iff, ltb→lt,
  if◌then◌else◌,
}
use unpacker.Extract.{clamp_mode, perm}

-- A test at each of the next `count` modes from `mode` on.
passes : (count mode : ℕ) → (ℕ → Bool) → Bool
passes zero mode test = true
passes (suc count) mode test = if test mode then passes count (mode + 1) test else false

passes_at :
    (count mode : ℕ) (test : ℕ → Bool) (at : ℕ)
    → passes count mode test ≡ true
    → mode ≤ at
    → at < mode + count
    → test at ≡ true
unfolding passes
passes_at zero mode test at h low high = absurd (omega (arith, low, high))
passes_at (suc count) mode test at h low high = ground (arith, passes_at count (mode + 1) test at)

and_split : (a b : Bool) → (a && b) ≡ true → (a ≡ true) × (b ≡ true)
and_split true b h = (refl, h)
and_split false b h = cc

-- A mode with the nine permission bits only, closed to writing by group and world, open to reading
-- by its owner, that keeps the other bits that were asked for.
pub IsClamped : ℕ → ℕ → Type 0
IsClamped asked r =
    (r < 512)
    × (bit_and r 0o022 ≡ 0)
    × (bit_and r 0o400 ≡ 0o400)
    × (bit_and r (bit_and asked 0o755) ≡ bit_and asked 0o755)

is_clamped : ℕ → ℕ → Bool
is_clamped asked r =
    ltb r 512
    && ((bit_and r 0o022 == 0)
        && ((bit_and r 0o400 == 0o400) && (bit_and r (bit_and asked 0o755) == bit_and asked 0o755)))

is_clamped→IsClamped : (asked r : ℕ) → is_clamped asked r ≡ true → IsClamped asked r
unfolding is_clamped IsClamped
is_clamped→IsClamped asked r h =
    let (a, h') = and_split _ _ h in
    let (b, h'') = and_split _ _ h' in
    let (c, d) = and_split _ _ h'' in
    (ltb→lt _ _ a, (==_iff _ _).0 b, (==_iff _ _).0 c, (==_iff _ _).0 d)

file_table : passes 512 0 (λ m. is_clamped m (clamp_mode m false)) ≡ true
unfolding passes is_clamped clamp_mode
file_table = refl

dir_table : passes 512 0 (λ m. is_clamped m (clamp_mode m true)) ≡ true
unfolding passes is_clamped clamp_mode
dir_table = refl

traversable_table : passes 512 0 (λ m. bit_and (clamp_mode m true) 0o700 == 0o700) ≡ true
unfolding passes clamp_mode
traversable_table = refl

-- The bits beside those of the owner that a mode must have are the bits that were asked for.
file_exact_table : passes 512 0 (λ m. bit_and (clamp_mode m false) 0o377 == bit_and m 0o355) ≡ true
unfolding passes clamp_mode
file_exact_table = refl

dir_exact_table : passes 512 0 (λ m. bit_and (clamp_mode m true) 0o077 == bit_and m 0o055) ≡ true
unfolding passes clamp_mode
dir_exact_table = refl

-- Whatever mode a header declares, `clampMode` leaves the nine permission bits only (no setuid,
-- setgid or sticky bit), none for writing by group or world, reading by the owner, and each other
-- bit that the archive asked for. No bit is added that was not asked for but the owner's reading of a
-- file, and the three bits of the owner of a directory, which are always set.
pub clamp_mode-IsClamped :
    (mode : ℕ) (is_dir : Bool)
    → IsClamped (perm mode) (clamp_mode (perm mode) is_dir)
      × (bit_and (clamp_mode (perm mode) true) 0o700 ≡ 0o700)
      × (bit_and (clamp_mode (perm mode) false) 0o377 ≡ bit_and (perm mode) 0o355)
      × (bit_and (clamp_mode (perm mode) true) 0o077 ≡ bit_and (perm mode) 0o055)
clamp_mode-IsClamped mode is_dir = (
  bits is_dir,
  (==_iff _ _).0 (passes_at 512 0 _ (perm mode) traversable_table (omega arith) (omega arith)),
  (==_iff _ _).0 (passes_at 512 0 _ (perm mode) file_exact_table (omega arith) (omega arith)),
  (==_iff _ _).0 (passes_at 512 0 _ (perm mode) dir_exact_table (omega arith) (omega arith)),
)
  where
    bits : (b : Bool) → IsClamped (perm mode) (clamp_mode (perm mode) b)
    bits true =
        is_clamped→IsClamped (perm mode) _
          (passes_at 512 0 _ (perm mode) dir_table (omega arith) (omega arith))
    bits false =
        is_clamped→IsClamped (perm mode) _
          (passes_at 512 0 _ (perm mode) file_table (omega arith) (omega arith))
