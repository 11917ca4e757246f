-- ===== src/Package/Install.antt =====
-- `main` of postinstall.py: its checks and then the seeding. What the system says of paths, the runtime
-- and the programs is an argument. Paths are texts.
pub mod Guards
use Prim.Native.String.{String, ◌++◌}
use bxi_car_v.Base.{
  ℕ, Bool, true, false, not, ◌&&◌, ◌||◌, Option, none, some, List, [], ◌∷◌, if◌then◌else◌,
}
use bxi_car_v.Base.Gate.{Gate, reject, pass, ◌>>=◌, ◌>>◌}
use bxi_car_v.Package.Seeding as Seeding
use bxi_car_v.Package.Seeding.{PathOf, Target, Found, Luck, copy_missing}

pub record Places : Type 0 where
  pub root : String
  pub config : String
  pub state : String
  pub logs : String
  pub lock : String
  pub ros_setup : String

-- What the system says of a path, of the yaml module, and of the programs: whether one is an ELF file,
-- and whether `ldd` under a setup file finds all of its libraries.
pub record System : Type 0 where
  pub is_absolute : String → Bool
  -- `path.resolve().is_relative_to(root.resolve())`
  pub is_inside : String → String → Bool
  pub is_file : String → Bool
  pub is_dir : String → Bool
  pub is_executable : String → Bool
  pub has_yaml : Bool
  pub is_elf : String → Bool
  pub resolves : String → String → Bool
  -- whether the directories can be made
  pub can_make : String → Bool
  pub fresh_mode : ℕ

pub data Failure : Type 0 where
  refused os_error : Failure
  seeding : Seeding.Failure → Failure

-- The settings and the state directory, and whether the directories have been made.
pub record Machine : Type 0 where
  pub made : List String
  pub config : Target
  pub state : Target

-- What is copied from: the defaults, and of an old machine its settings and its state, if it has any.
pub record Old : Type 0 where
  pub place : String
  pub config : List (PathOf × Found × Luck)
  pub state : Option (List (PathOf × Found × Luck))

abbrev pub Act : Type 0
Act = Machine → Gate Failure Machine (Unit {0})

-- `raise ValueError` unless the test holds.
require : Bool → Act
require true m = pass tt m
require false m = reject refused m

every : (String → Bool) → List String → Bool
every test [] = true
every test (p ∷ ps) = test p && every test ps

module _ (sys : System) (places : Places) where
  open places use {root, config, state, logs, lock, ros_setup}

  -- `root / 'share/chassis/config' / name`
  default_file : String → String
  default_file name = root ++ ("/share/chassis/config/" ++ name)

  program : String → String
  program name = root ++ ("/lib/chassis/" ++ name)

  setup : String
  setup =
      if sys.is_file (root ++ "/local_setup.bash")
      then root ++ "/local_setup.bash"
      else root ++ "/share/chassis/local_setup.bash"

  runs : String → Bool
  unfolding setup
  runs path = not (sys.is_elf path) || sys.resolves setup path

  has_settings : Option Old → Bool
  has_settings none = true
  has_settings (some old) = sys.is_dir (old.place ++ "/src/config")

  -- The persistent paths, which an update of the package must not replace.
  persistent : List String
  persistent = config ∷ state ∷ logs ∷ lock ∷ []

  unfoldable pub checks : Option Old → Act
  unfolding require every persistent default_file program runs has_settings setup
  checks old = do
    require (every sys.is_absolute (root ∷ persistent))
    require (every (λ p. not (sys.is_inside p root)) persistent)
    require (
        every (λ name. sys.is_file (default_file name))
          ("steering.yaml" ∷ "steering_hardware.yaml" ∷ "yiyou_ethercat.yaml" ∷ []))
    require (every (λ name. sys.is_executable (program name)) ("chassis" ∷ "chassis_only" ∷ []))
    require (sys.is_file ros_setup)
    require sys.has_yaml
    require (sys.is_file setup)
    require (every (λ name. runs (program name)) ("chassis" ∷ "chassis_only" ∷ []))
    require (has_settings old)

  make : String → Act
  make p m = if sys.can_make p then pass tt (record m { made = p ∷ m.made }) else reject os_error m

  of_config : Machine → Gate Seeding.Failure Target (Unit {0}) → Gate Failure Machine (Unit {0})
  of_config m (pass _ t) = pass tt (record m { config = t })
  of_config m (reject why t) = reject (seeding why) (record m { config = t })

  of_state : Machine → Gate Seeding.Failure Target (Unit {0}) → Gate Failure Machine (Unit {0})
  of_state m (pass _ t) = pass tt (record m { state = t })
  of_state m (reject why t) = reject (seeding why) (record m { state = t })

  to_config : List (PathOf × Found × Luck) → Act
  unfolding of_config
  to_config findings m = of_config m (copy_missing sys.fresh_mode findings m.config)

  to_state : List (PathOf × Found × Luck) → Act
  unfolding of_state
  to_state findings m = of_state m (copy_missing sys.fresh_mode findings m.state)

  old_state : Option (List (PathOf × Found × Luck)) → Act
  unfolding to_state
  old_state none = pass tt
  old_state (some findings) = to_state findings

  migrated : Option Old → Act
  unfolding to_config old_state
  migrated none = pass tt
  migrated (some old) = do to_config old.config; old_state old.state

  -- The directories and the copies of `main`; the lock's directory is `lock_parent`.
  seeded : String → Option Old → List (PathOf × Found × Luck) → Act
  unfolding make migrated to_config
  seeded lock_parent old defaults = do
    make config
    make state
    make logs
    make lock_parent
    migrated old
    to_config defaults

  -- `main`
  unfoldable pub install : String → Option Old → List (PathOf × Found × Luck) → Act
  unfolding seeded
  install lock_parent old defaults = do checks old; seeded lock_parent old defaults
