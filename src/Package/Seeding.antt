-- ===== src/Package/Seeding.antt =====
-- `copy_missing` of postinstall.py and the two copies of its `main`. A path is the list of its code
-- points, relative to the directory that is copied; a directory's files are an association list. What
-- the operating system does with each copy is an argument.
pub mod Merge
use bxi_car_v.Base.{
  ℕ, zero, suc, Bool, true, false, ◌&&◌, Option, none, some, List, [], ◌∷◌, ◌==◌, if◌then◌else◌,
}
use bxi_car_v.Base.Gate.{Gate, reject, pass, ◌>>=◌, ◌>>◌}

abbrev pub PathOf : Type 0
PathOf = List ℕ

unfoldable pub same_path : PathOf → PathOf → Bool
same_path [] [] = true
same_path (a ∷ p) (b ∷ q) = a == b && same_path p q
same_path _ _ = false

-- What stands at a path of the target: a file with its bytes and mode, or something else.
pub data Entry : Type 0 where
  file : List ℕ → ℕ → Entry
  occupied : Entry

abbrev pub Target : Type 0
Target = List (PathOf × Entry)

unfoldable pub find : PathOf → Target → Option Entry
find p [] = none
find p ((q, e) ∷ t) = let rest = find p t in if same_path p q then some e else rest

-- `destination.unlink(missing_ok=True)`
unfoldable pub unlink : PathOf → Target → Target
unlink p [] = []
unlink p ((q, e) ∷ t) = let rest = unlink p t in if same_path p q then rest else (q, e) ∷ rest

-- What `rglob` finds at a path of the source.
pub data Found : Type 0 where
  symlink directory : Found
  regular : List ℕ → Found

-- What the system does with one copy: all is well, making the parent directory fails, the opening or
-- the copying fails once the bytes so far are written, or `chmod` fails.
pub data Luck : Type 0 where
  fine no_parent no_mode : Luck
  broken_off : List ℕ → Luck

pub data Failure : Type 0 where
  is_symlink os_error : Failure

-- The mode of a new file before `chmod`, by the umask.
module _ (fresh_mode : ℕ) where
  -- The copy of one regular file, where its destination is or is not there.
  copied : PathOf → List ℕ → Luck → Option Entry → Target → Gate Failure Target (Unit {0})
  copied p bytes no_parent there t = reject os_error t
  copied p bytes luck (some e) t = pass tt t
  copied p bytes (broken_off part) none t =
      reject os_error (unlink p ((p, file part fresh_mode) ∷ t))
  copied p bytes no_mode none t = reject os_error ((p, file bytes fresh_mode) ∷ t)
  copied p bytes fine none t = pass tt ((p, file bytes 420) ∷ t)

  step : PathOf → Found → Luck → Target → Gate Failure Target (Unit {0})
  unfolding copied
  step p symlink luck t = reject is_symlink t
  step p directory luck t = pass tt t
  step p (regular bytes) luck t = copied p bytes luck (find p t) t

  -- `copy_missing(source, target)`, for the sorted findings in the source.
  unfoldable pub copy_missing :
      List (PathOf × Found × Luck) → Target → Gate Failure Target (Unit {0})
  unfolding step
  copy_missing [] = pass tt
  copy_missing ((p, f, luck) ∷ more) = step p f luck >> copy_missing more

  -- The copies of `main` into the configuration: the old machine's, if given, and then the defaults.
  unfoldable pub seed_config :
      Option (List (PathOf × Found × Luck))
      → List (PathOf × Found × Luck)
      → Target
      → Gate Failure Target (Unit {0})
  seed_config none defaults = copy_missing defaults
  seed_config (some migration) defaults = copy_missing migration >> copy_missing defaults
