-- ===== src/System/Reads.antt =====
-- What a read that goes through has found.
use unpacker.Base.{ℕ, Bool, false, ◌≡◌, refl, ◌∙◌, arith, Option, none, some, []}
use unpacker.Base.Text.{Bytes}
use unpacker.Errors.{Result, ok, err}
use unpacker.System.Disk.{Disk, Node, file, folder, find}
use unpacker.System.Keeps.{Keeps, IsPreorder, >>=-Keeps}
use unpacker.System.Monad.{
  M, ◌>>=◌, pure, lift, World, call, next_fault, content, unless_fault, read_file,
}

-- A regular file with these bytes.
abbrev pub Holds : Disk → Bytes → Bytes → Type 0
Holds d p s = (mode : ℕ) × (find p d ≡ some (file mode s))

content-ok :
    (n : Option Node) {s : Bytes} → content n ≡ ok s → (mode : ℕ) × (n ≡ some (file mode s))
content-ok (some (file m t)) h = (m, ground arith)
content-ok (some (folder m)) h = cc
content-ok none h = cc

pub read_file-Holds :
    (p : Bytes) (w : World) {s : Bytes} → (read_file p w).0 ≡ ok s → Holds w.disk p s
unfolding read_file call
read_file-Holds p w {s} h = go (next_fault w.faults).0 h
  where
    go :
        (f : Option ℕ)
        → (unless_fault (λ d. content (find p d)) f w.disk).0 ≡ ok s
        → Holds w.disk p s
    go none h = content-ok (find p w.disk) h
    go (some k) h = cc

pub read_file-disk : (p : Bytes) (w : World) → (read_file p w).1.disk ≡ w.disk
unfolding read_file call
read_file-disk p w = refl

-- The disk is left alone outside a region, and no bytes are copied.
module _ (inside : Bytes → Bool) where
  abbrev pub SameBut : World → World → Type 0
  SameBut w v =
      ((q : Bytes) → inside q ≡ false → find q v.disk ≡ find q w.disk) × (v.copied ≡ w.copied)

  pub SameBut-IsPreorder : IsPreorder SameBut
  SameBut-IsPreorder = record {
    same = λ w. ((λ q _. refl), refl);
    then_also = λ u v w (e, e') (f, f'). ((λ q out. f q out ∙ e q out), f' ∙ e');
    ignores_log = λ w l. ((λ q _. refl), refl);
  }

  pub read_file-SameBut : (p : Bytes) → Keeps SameBut (read_file p)
  unfolding read_file call
  read_file-SameBut p w = ((λ q _. refl), refl)

  module _ {A B : Type 0} where
    -- The rule for a sequence, at this relation.
    pub >>=-SameBut :
        (m : M A) (f : A → M B)
        → Keeps SameBut m
        → ((a : A) → Keeps SameBut (f a))
        → Keeps SameBut (m >>= f)
    >>=-SameBut = >>=-Keeps SameBut SameBut-IsPreorder A B

    -- What ends with a value that is made without a call.
    pub lift-pure-SameBut : (r : Result A) (f : A → B) → Keeps SameBut (lift r >>= λ a. pure (f a))
    lift-pure-SameBut (ok a) f w = ((λ q _. refl), refl)
    lift-pure-SameBut (err e) f w = ((λ q _. refl), refl)

-- Where no call fails, a regular file can be read.
pub read_file-found :
    (p : Bytes) (w : World) {s : Bytes}
    → w.faults ≡ []
    → Holds w.disk p s
    → (v : World) × (read_file p w ≡ (ok s, v)) × (v.disk ≡ w.disk) × (v.faults ≡ [])
unfolding read_file call
read_file-found p w quiet (m, found) =
    (record w { disk = w.disk; faults = [] }, (rw (quiet, found) refl), refl, refl)
