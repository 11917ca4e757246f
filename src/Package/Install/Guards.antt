-- ===== src/Package/Install/Guards.antt =====
-- What the installation checks before it changes anything, and what it never replaces.
use bxi_car_v.Base.{false, Option, none, some, List, ◌≡◌, inr, refl, sym, subst, arith, String}
use bxi_car_v.Base.Gate.{
  After, After-bind, After-map, Ends, Ends-After, After-Ends, Ends-bind, Ends-map, ◌>>◌,
}
use bxi_car_v.Package.Seeding.{PathOf, Target, Found, Luck, copy_missing}
use bxi_car_v.Package.Seeding.Merge.{Kept, copy_missing_merges, Kept-trans}
use bxi_car_v.Package.Install.{
  Places, System, Machine, Old, Act, require, every, persistent, checks, make, of_config, of_state,
  to_config, to_state, old_state, migrated, seeded, install,
}

module _ (sys : System) (places : Places) where
  open places use {root, config, state, logs, lock}

  -- None of the persistent paths is inside the package's directory.
  abbrev pub Outside : Type 0
  Outside =
      (sys.is_inside config root ≡ false)
      × (sys.is_inside state root ≡ false)
      × (sys.is_inside logs root ≡ false)
      × (sys.is_inside lock root ≡ false)

  -- The checks leave the machine as it is, and where they pass nothing persistent is in the package.
  checks-Ends :
      (old : Option Old) (m : Machine)
      → Ends (λ u. u ≡ m) (λ _ u. (u ≡ m) × Outside) (checks sys places old m)
  unfolding checks require every persistent
  checks-Ends old m = ground arith

  -- Whatever stood at a path of the settings and of the state stands there still.
  abbrev pub Spared : PathOf → Machine → Machine → Type 0
  Spared p m u = Kept p m.config u.config × Kept p m.state u.state

  abbrev Sparing : PathOf → Act → Type 0
  Sparing p a = (m : Machine) → After (Spared p m) (a m)

  Spared-trans : (p : PathOf) (m u v : Machine) → Spared p m u → Spared p u v → Spared p m v
  Spared-trans p m u v (a, b) (c, d) = (
    Kept-trans sys.fresh_mode p m.config u.config v.config a c,
    Kept-trans sys.fresh_mode p m.state u.state v.state b d,
  )

  Sparing-bind : (p : PathOf) (a b : Act) → Sparing p a → Sparing p b → Sparing p (a >> b)
  Sparing-bind p a b h k m =
      After-bind (Spared p m) (Spared p m) (a m) (λ _. b) (h m) (λ u s. s)
        (λ _ u s. After-map (Spared p u) (Spared p m) (b u) (k u) (λ v t. Spared-trans p m u v s t))

  make-Sparing : (p : PathOf) (path : String) → Sparing p (make sys places path)
  unfolding make
  make-Sparing p path m = ground arith

  copy_missing-Kept :
      (p : PathOf) (findings : List (PathOf × Found × Luck)) (t : Target)
      → After (Kept p t) (copy_missing sys.fresh_mode findings t)
  copy_missing-Kept p findings t = Ends-After (Kept p t) (copy_missing sys.fresh_mode findings t) (
      Ends-map (Kept p t) _ (Kept p t) (λ _. Kept p t) (copy_missing sys.fresh_mode findings t)
        (copy_missing_merges sys.fresh_mode p findings t) (λ u k. k) (λ _ u k. k.1))

  to_config-Sparing :
      (p : PathOf) (findings : List (PathOf × Found × Luck))
      → Sparing p (to_config sys places findings)
  unfolding to_config of_config
  to_config-Sparing p findings m = ground (arith, copy_missing-Kept p findings m.config)

  to_state-Sparing :
      (p : PathOf) (findings : List (PathOf × Found × Luck))
      → Sparing p (to_state sys places findings)
  unfolding to_state of_state
  to_state-Sparing p findings m = ground (arith, copy_missing-Kept p findings m.state)

  old_state-Sparing :
      (p : PathOf) (o : Option (List (PathOf × Found × Luck))) → Sparing p (old_state sys places o)
  unfolding old_state
  old_state-Sparing p none m = (inr refl, inr refl)
  old_state-Sparing p (some findings) m = to_state-Sparing p findings m

  migrated-Sparing : (p : PathOf) (old : Option Old) → Sparing p (migrated sys places old)
  unfolding migrated
  migrated-Sparing p none m = (inr refl, inr refl)
  migrated-Sparing p (some old) m =
      Sparing-bind p (to_config sys places old.config) (old_state sys places old.state)
        (to_config-Sparing p old.config) (old_state-Sparing p old.state) m

  seeded-Sparing :
      (p : PathOf) (lock_parent : String) (old : Option Old)
      (defaults : List (PathOf × Found × Luck))
      → Sparing p (seeded sys places lock_parent old defaults)
  unfolding seeded
  seeded-Sparing p lock_parent old defaults =
      let made = λ (path : String). make sys places path in
      let copies = migrated sys places old >> to_config sys places defaults in
      let last = made lock_parent >> copies in
      Sparing-bind p (made config) (made state >> (made logs >> last)) (make-Sparing p config) (
        Sparing-bind p (made state) (made logs >> last) (make-Sparing p state) (
          Sparing-bind p (made logs) last (make-Sparing p logs) (
            Sparing-bind p (made lock_parent) copies (make-Sparing p lock_parent) (
              Sparing-bind p (migrated sys places old) (to_config sys places defaults)
                (migrated-Sparing p old) (to_config-Sparing p defaults)))))

  -- Whatever the system answers, an installation leaves every entry of the settings and of the state as
  -- it was, whether it ends or fails. One that passes has none of the persistent paths inside the
  -- package's directory, which an update replaces.
  pub install_spares :
      (p : PathOf) (lock_parent : String) (old : Option Old)
      (defaults : List (PathOf × Found × Luck)) (m : Machine)
      → Ends
          (Spared p m)
          (λ _ u. Spared p m u × Outside)
          (install sys places lock_parent old defaults m)
  unfolding install
  install_spares p lock_parent old defaults m =
      Ends-bind (λ u. u ≡ m) (λ _ u. (u ≡ m) × Outside) (Spared p m) (λ _ u. Spared p m u × Outside)
        (checks sys places old m) (λ _. seeded sys places lock_parent old defaults)
        (checks-Ends old m) (λ u e. subst (Spared p m) (sym e) (inr refl, inr refl))
        (λ _ u (e, out).
          Ends-map (Spared p m) (λ _. Spared p m) (Spared p m) (λ _ v. Spared p m v × Outside)
            (seeded sys places lock_parent old defaults u)
            (After-Ends (Spared p m) (seeded sys places lock_parent old defaults u) (
              subst (λ x. After (Spared p x) (seeded sys places lock_parent old defaults u)) e
                (seeded-Sparing p lock_parent old defaults u)))
            (λ v k. k) (λ _ v k. (k, out)))
