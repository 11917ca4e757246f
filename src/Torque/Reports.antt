-- ===== src/Torque/Reports.antt =====
-- Writing a report in arm_torque_report.py: `assert_output_target`, `replace_output`, `write_summary` and
-- the files of `generate_report`. The document of the summary and the success of drawing and writing
-- are arguments. The temporary files, which are new and are removed again, are left out.
pub mod Targets
use bxi_car_v.Base.{
  ℕ, Bool, true, false, not, Option, none, some, List, [], ◌∷◌, ◌==◌, if◌then◌else◌,
}
use bxi_car_v.Base.Gate.{Gate, reject, pass, ◌>>=◌, ◌>>◌}
use bxi_car_v.Base.Value.{Value}
use bxi_car_v.Torque.Files.{
  Name, same, Node, regular, symlink, other, Directory, lookup, unlink, generated, names_png,
  json_of, png_of,
}

-- The AttributeError of a summary that is no dict, the FileExistsError, and another failure.
pub data Refusal : Type 0 where
  no_dict unknown_output failed : Refusal

abbrev pub Act : Type 0 → Type 0
Act F = Directory F → Gate Refusal (Directory F) (Unit {0})

module _ {F : Type 0} where
  -- `path.exists()`, which follows a link.
  pub exists : Option (Node F) → Bool
  exists none = false
  exists (some (symlink live)) = live
  exists (some x) = true

  is_plain : Option (Node F) → Bool
  is_plain (some (regular v)) = true
  is_plain _ = false

  is_link : Option (Node F) → Bool
  is_link (some (symlink live)) = true
  is_link _ = false

  require : Option Bool → Act F
  require none d = reject no_dict d
  require (some false) d = reject unknown_output d
  require (some true) d = pass tt d

  -- `assert_output_target(path)` of a path with this node; `mark` is the test by the path's suffix.
  assert_output_target : Option (Node F) → Option Bool → Act F
  unfolding exists is_plain require
  assert_output_target o mark d =
      if not (exists o)
      then pass tt d
      else if not (is_plain o)
      then reject unknown_output d
      else require mark d

  -- `replace_output(temporary, target)`
  replace_output : Name → Node F → Act F
  unfolding exists is_link
  replace_output name x d =
      if exists (lookup name d)
      then (if is_link (lookup name d)
          then reject unknown_output d
          else pass tt ((name, x) ∷ unlink name d))
      else pass tt ((name, x) ∷ unlink name d)

  succeed : Bool → Act F
  succeed true d = pass tt d
  succeed false d = reject failed d

  -- `write_summary`, for the document of the summary.
  unfoldable pub write_summary : Name → Value F → Bool → Act F
  unfolding assert_output_target succeed replace_output
  write_summary csv document writes d =
      (assert_output_target (lookup (json_of csv) d) (generated (lookup (json_of csv) d))
          >> do succeed writes; replace_output (json_of csv) (regular (some document)))
        d

  -- The image of `generate_report`.
  write_image : Name → Bool → Act F
  unfolding assert_output_target succeed replace_output
  write_image csv draws d =
      (assert_output_target (lookup (png_of csv) d)
            (names_png (lookup (json_of csv) d) (png_of csv))
          >> do succeed draws; replace_output (png_of csv) (regular none))
        d

  -- `generate_report`, for the number of rows and the document with the image or without it.
  unfoldable pub generate_report : Name → ℕ → (Bool → Value F) → Bool → Bool → Act F
  unfolding write_image
  generate_report csv rows document draws writes =
      if rows == 0
      then write_summary csv (document false) writes
      else (do write_image csv draws; write_summary csv (document true) writes)
