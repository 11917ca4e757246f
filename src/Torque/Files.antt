-- ===== src/Torque/Files.antt =====
-- The files of a directory of recordings in arm_torque_report.py: which belong to the recorder, which
-- are reports, and `cleanup_old_reports`. A name is the list of its code points. What `json.loads`
-- gives of a file is an argument.
pub mod Cleanup
pub mod Removal
pub mod Sparing
use text.Mathlib.Text.{◌==◌ as str_eq}
use bxi_car_v.Base.Text.{codes}
use bxi_car_v.Base.{
  ℕ, zero, suc, Bool, true, false, ◌&&◌, ◌||◌, not, Option, none, some, List, [], ◌∷◌, ◌++◌, drop,
  ltb, ◌==◌, String, if◌then◌else◌,
}
use bxi_car_v.Base.Gate.{Gate, reject, pass, ◌>>=◌, ◌>>◌}
use bxi_car_v.Base.Value.{Value, dict, str, get}

abbrev pub Name : Type 0
Name = List ℕ

unfoldable pub same : Name → Name → Bool
same [] [] = true
same (a ∷ s) (b ∷ t) = a == b && same s t
same _ _ = false

-- An entry of the directory: a regular file, with what `json.loads` gives of its text (`none` where
-- reading or parsing raises), a symbolic link, or another kind.
pub data Node (F : Type 0) : Type 0 where
  regular : Option (Value F) → Node F
  -- whether what it points to exists
  symlink : Bool → Node F
  other : Node F

abbrev pub Directory : Type 0 → Type 0
Directory F = List (Name × Node F)

-- The rest after a beginning.
after : Name → Name → Option Name
after [] s = some s
after (a ∷ p) [] = none
after (a ∷ p) (b ∷ s) = let rest = after p s in if a == b then rest else none

-- `text < text`, by code points.
unfoldable pub before : Name → Name → Bool
before s [] = false
before [] (b ∷ t) = true
before (a ∷ s) (b ∷ t) = ltb a b || (a == b && before s t)

-- `\d` for a test of decimal digits.
module _ (decimal : ℕ → Bool) where
  -- The digits of the process's number and the end of the name; `$` allows for a line break after it.
  number_then_end : Name → Bool
  number_then_end [] = false
  number_then_end (c ∷ s) =
      let rest = number_then_end s in
      if decimal c
      then rest
      else same (c ∷ s) (codes ".csv") || same (c ∷ s) (codes ".csv" ++ (10 ∷ []))

  number : Name → Bool
  unfolding number_then_end
  number [] = false
  number (c ∷ s) = decimal c && number_then_end s

  -- As many digits, a dash, and then more.
  group : ℕ → (Name → Bool) → Name → Bool
  group zero more [] = false
  group zero more (c ∷ s) = c == 45 && more s
  group (suc k) more [] = false
  group (suc k) more (c ∷ s) = decimal c && group k more s

  -- `OWNED_CSV.match(name)`, neither a dash nor a full stop being a decimal digit.
  unfoldable pub is_owned_csv : Name → Bool
  unfolding after group number
  is_owned_csv name = elim (after (codes "arm-torque-") name) [
    | none ↦ false
    | some rest ↦ group 8 (group 6 (group 6 number)) rest
  ]

module _ {F : Type 0} where
  unfoldable pub lookup : Name → Directory F → Option (Node F)
  lookup name [] = none
  lookup name ((k, x) ∷ d) = let rest = lookup name d in if same name k then some x else rest

  unfoldable pub unlink : Name → Directory F → Directory F
  unlink name [] = []
  unlink name ((k, x) ∷ d) = let rest = unlink name d in if same name k then rest else (k, x) ∷ rest

  -- `path.is_file() and not path.is_symlink()`
  is_plain : Option (Node F) → Bool
  is_plain (some (regular v)) = true
  is_plain _ = false

  -- `is_generated_json(path)`; `none` is the AttributeError of a value that is no dict.
  pub generated : Option (Node F) → Option Bool
  generated (some (regular (some (dict d)))) = elim (get "generated_by" d) [
    | str s ↦ some (str_eq s "arm_torque_report.py")
    | _ ↦ some false
  ]
  generated (some (regular (some v))) = none
  generated _ = some false

  image_of : Option (Node F) → Option Name
  image_of (some (regular (some (dict d)))) = elim (get "image_png" d) [
    | str s ↦ some (codes s)
    | _ ↦ none
  ]
  image_of _ = none

  -- Whether `generated_png_for(json_path)` is the name given; `none` is the AttributeError.
  unfoldable pub names_png : Option (Node F) → Name → Option Bool
  unfolding generated image_of
  names_png o name = elim (generated o) [
    | none ↦ none
    | some false ↦ some false
    | some true ↦ some (elim (image_of o) [ none ↦ false | some png ↦ same png name ])
  ]

  -- The names of the owned recordings among regular files, in the order of the directory.
  owned : (ℕ → Bool) → Directory F → List Name
  unfolding is_plain
  owned decimal [] = []
  owned decimal ((k, x) ∷ d) =
      let rest = owned decimal d in
      if is_owned_csv decimal k && is_plain (some x) then k ∷ rest else rest

-- The sorting by name, the greatest first.
insert : Name → List Name → List Name
insert name [] = name ∷ []
insert name (k ∷ ks) =
    let rest = insert name ks in if before name k then k ∷ rest else name ∷ k ∷ ks

sorted : List Name → List Name
unfolding insert
sorted [] = []
sorted (k ∷ ks) = insert k (sorted ks)

-- `owned_completed_csvs(directory)`
unfoldable pub owned_completed_csvs : {F : Type 0} → (ℕ → Bool) → Directory F → List Name
unfolding owned sorted
owned_completed_csvs decimal d = sorted (owned decimal d)

-- The name up to its last full stop, if it has one.
pub stem : Name → Option Name
stem [] = none
stem (c ∷ s) = elim (stem s) [ none ↦ if c == 46 then some [] else none | some r ↦ some (c ∷ r) ]

-- `path.with_suffix(suffix)` of a name with a suffix.
unfoldable pub with_suffix : Name → Name → Name
unfolding stem
with_suffix suffix name = elim (stem name) [ none ↦ name ++ suffix | some s ↦ s ++ suffix ]

abbrev pub json_of : Name → Name
json_of csv = with_suffix (codes ".json") csv

abbrev pub png_of : Name → Name
png_of csv = with_suffix (codes ".png") csv

pub data Stop : Type 0 where
  -- the AttributeError, and the FileNotFoundError of a file that is gone
  no_dict gone : Stop

abbrev pub Act : Type 0 → Type 0 → Type 0
Act F A = Directory F → Gate Stop (Directory F) A

module _ {F : Type 0} where
  -- `path.unlink()`
  pub remove : Name → Act F (List Name)
  remove name d = elim (lookup name d) [
    | none ↦ reject gone d
    | some x ↦ pass (name ∷ []) (unlink name d)
  ]

  of_answer : Option Bool → Act F Bool
  of_answer none d = reject no_dict d
  of_answer (some b) d = pass b d

  -- Whether the report's image may go, and whether its summary may.
  png_goes : Name → Act F Bool
  unfolding is_plain of_answer
  png_goes csv d =
      if is_plain (lookup (json_of csv) d)
      then (of_answer (names_png (lookup (json_of csv) d) (png_of csv)) >>= λ named e.
            pass (named && is_plain (lookup (png_of csv) e)) e)
          d
      else pass false d

  json_goes : Name → Act F Bool
  unfolding is_plain of_answer generated
  json_goes csv d =
      if is_plain (lookup (json_of csv) d)
      then of_answer (generated (lookup (json_of csv) d)) d
      else pass false d

  pub remove_if : Bool → Name → Act F (List Name)
  unfolding remove
  remove_if false name = pass []
  remove_if true name = remove name

  -- One turn of the loop of `cleanup_old_reports`.
  unfoldable pub clean : Name → Act F (List Name)
  unfolding png_goes json_goes remove_if remove
  clean csv = do
    png ← png_goes csv
    first ← remove_if png (png_of csv)
    json ← json_goes csv
    second ← remove_if json (json_of csv)
    third ← remove csv
    pass (first ++ (second ++ third))

  unfoldable pub clean_all : List Name → Act F (List Name)
  clean_all [] = pass []
  clean_all (csv ∷ more) = do removed ← clean csv; others ← clean_all more; pass (removed ++ others)

  -- `cleanup_old_reports(directory, keep)`; a negative number to keep is a ValueError at once, so it is
  -- left out.
  unfoldable pub cleanup_old_reports : (ℕ → Bool) → ℕ → Act F (List Name)
  cleanup_old_reports decimal keep d = clean_all (drop keep (owned_completed_csvs decimal d)) d
