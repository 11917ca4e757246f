-- ===== src/Examples/Package.antt =====
-- Seeding a machine that has settings of its own.
use bxi_car_v.Base.{true, false, some, List, [], ◌∷◌, ◌≡◌}
use bxi_car_v.Base.Gate.{Ends}
use bxi_car_v.Package.Seeding.{
  PathOf, file, Target, find, Found, directory, regular, Luck, fine, broken_off, seed_config,
}
use bxi_car_v.Package.Seeding.Merge.{Kept, or_else, migrated_seeds, seeds, seed_config_merges}
use bxi_car_v.Package.Install.{Places, System, Machine, Old, install}
use bxi_car_v.Package.Install.Guards.{Outside, Spared, install_spares}

abbrev here : Target
here = (1 ∷ [], file (7 ∷ []) 384) ∷ []

abbrev old_files : List (PathOf × Found × Luck)
old_files =
    (1 ∷ [], regular (8 ∷ []), fine)
    ∷ (2 ∷ [], directory, fine)
    ∷ (2 ∷ 3 ∷ [], regular (9 ∷ []), fine)
    ∷ []

abbrev defaults : List (PathOf × Found × Luck)
defaults = (2 ∷ 3 ∷ [], regular (4 ∷ []), fine) ∷ (5 ∷ [], regular (6 ∷ []), broken_off []) ∷ []

seed_config_merges_example :
    Ends
      (λ u. Kept (2 ∷ 3 ∷ []) here u)
      (λ _ u.
        find (2 ∷ 3 ∷ []) u
        ≡ or_else (find (2 ∷ 3 ∷ []) here) (
            or_else
              (migrated_seeds 420 (some old_files) (2 ∷ 3 ∷ []))
              (seeds defaults (2 ∷ 3 ∷ []))))
      (seed_config 420 (some old_files) defaults here)
seed_config_merges_example = seed_config_merges 420 (2 ∷ 3 ∷ []) (some old_files) defaults here

abbrev places : Places
places = record {
  root = "/opt/car2";
  config = "/var/config";
  state = "/var/state";
  logs = "/var/log";
  lock = "/var/lock";
  ros_setup = "/opt/ros/setup.bash";
}

abbrev system : System
system = record {
  is_absolute = λ p. true;
  is_inside = λ p root. false;
  is_file = λ p. true;
  is_dir = λ p. true;
  is_executable = λ p. true;
  has_yaml = true;
  is_elf = λ p. true;
  resolves = λ setup p. true;
  can_make = λ p. true;
  fresh_mode = 420;
}

abbrev machine : Machine
machine = record { made = []; config = here; state = [] }

abbrev old_machine : Old
old_machine = record { place = "/home/old"; config = old_files; state = some old_files }

install_spares_example :
    Ends
      (Spared system places (1 ∷ []) machine)
      (λ _ u. Spared system places (1 ∷ []) machine u × Outside system places)
      (install system places "/var" (some old_machine) defaults machine)
install_spares_example =
    install_spares system places (1 ∷ []) "/var" (some old_machine) defaults machine
