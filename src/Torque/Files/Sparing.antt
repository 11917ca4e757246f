-- ===== src/Torque/Files/Sparing.antt =====
-- The steps of the removal of old reports in arm_torque_report.py, each with what it may remove.
use bxi_car_v.Base.{
  Bool, true, false, some, List, [], ◌∷◌, ◌++◌, ◌≡◌, ◌⊎◌, inl, inr, refl, sym, subst, arith,
}
use bxi_car_v.Base.Gate.{
  pass, After, After-bind, Ends, Ends-After, After-Ends, Ends-map, Ends-bind, ◌>>=◌,
}
use bxi_car_v.Torque.Files.{
  Name, Directory, lookup, generated, names_png, json_of, png_of, Act, remove, of_answer, png_goes,
  json_goes, remove_if, clean, clean_all,
}
use bxi_car_v.Torque.Files.Removal.{
  or_map, GoesWith, MayGo, Spared, remove_if-Spared, remove-Spared,
}

module _ {F : Type 0} where
  png_goes-Ends :
      (csv : Name) (e : Directory F)
      → Ends
          (λ u. u ≡ e)
          (λ b u.
            (u ≡ e) × ((b ≡ false) ⊎ (names_png (lookup (json_of csv) e) (png_of csv) ≡ some true)))
          (png_goes csv e)
  unfolding png_goes of_answer
  png_goes-Ends csv e = ground arith

  json_goes-Ends :
      (csv : Name) (e : Directory F)
      → Ends
          (λ u. u ≡ e)
          (λ b u. (u ≡ e) × ((b ≡ false) ⊎ (generated (lookup (json_of csv) e) ≡ some true)))
          (json_goes csv e)
  unfolding json_goes of_answer
  json_goes-Ends csv e = ground arith

  -- What marks a report now has marked it from the start.
  marked_before :
      (old : List Name) (d e : Directory F) (csv : Name)
      → Spared old d e
      → (generated (lookup (json_of csv) e) ≡ some true
          → generated (lookup (json_of csv) d) ≡ some true)
        × (names_png (lookup (json_of csv) e) (png_of csv) ≡ some true
            → names_png (lookup (json_of csv) d) (png_of csv) ≡ some true)
  unfolding names_png generated
  marked_before old d e csv h = elim (h (json_of csv)) [
    | inl same_as ↦ (
      (λ k. subst (λ o. generated o ≡ some true) same_as k),
      (λ k. subst (λ o. names_png o (png_of csv) ≡ some true) same_as k),
    )
    | inr (none_left, may) ↦ (
      (λ k. absurd (cc (subst (λ o. generated o ≡ some true) none_left k))),
      (λ k. absurd (cc (subst (λ o. names_png o (png_of csv) ≡ some true) none_left k))),
    )
  ]

  -- An action that removes only what may go.
  abbrev pub Sparing : {A : Type 0} → List Name → Directory F → Act F A → Type 0
  Sparing old d m = (e : Directory F) → Spared old d e → After (Spared old d) (m e)

  Sparing-bind :
      {A B : Type 0} (old : List Name) (d : Directory F) (m : Act F A) (f : A → Act F B)
      → Sparing old d m
      → ((a : A) → Sparing old d (f a))
      → Sparing old d (m >>= f)
  Sparing-bind old d m f h k e s =
      After-bind (Spared old d) (Spared old d) (m e) f (h e s) (λ u t. t) (λ a u t. k a u t)

  -- A test that leaves the directory alone, and what goes if it says so.
  guarded-Sparing :
      {A : Type 0} (old : List Name) (d : Directory F) (g : Act F Bool) (k : Name)
      (f : List Name → Act F A)
      → ((e : Directory F)
          → Spared old d e
          → Ends (λ u. u ≡ e) (λ b u. (u ≡ e) × ((b ≡ false) ⊎ MayGo old d k)) (g e))
      → ((a : List Name) → Sparing old d (f a))
      → Sparing old d (g >>= λ b. remove_if b k >>= f)
  guarded-Sparing old d g k f h r e s = Ends-After (Spared old d) _ (
      Ends-bind (λ u. u ≡ e) (λ b u. (u ≡ e) × ((b ≡ false) ⊎ MayGo old d k)) (Spared old d)
        (λ _. Spared old d) (g e) (λ b. remove_if b k >>= f) (h e s)
        (λ u x. subst (Spared old d) (sym x) s)
        (λ b u (x, may). After-Ends (Spared old d) ((remove_if b k >>= f) u) (
          Sparing-bind old d (remove_if b k) f (λ v t. remove_if-Spared old d v b k may t) r u
            (subst (Spared old d) (sym x) s))))

  clean-Sparing :
      (old : List Name) (d : Directory F) (csv : Name)
      → ((name : Name) → GoesWith csv d name → MayGo old d name)
      → Sparing old d (clean csv)
  unfolding clean
  clean-Sparing old d csv may =
      guarded-Sparing old d (png_goes csv) (png_of csv) _
        (λ e s.
          Ends-map (λ u. u ≡ e) _ (λ u. u ≡ e) _ (png_goes csv e) (png_goes-Ends csv e) (λ u x. x)
            (λ b u x. (
              x.0,
              or_map (λ k. may (png_of csv) (inr (inr (refl, (marked_before old d e csv s).1 k))))
                  x.1,
            )))
        (λ first.
          guarded-Sparing old d (json_goes csv) (json_of csv) _
            (λ e s.
              Ends-map (λ u. u ≡ e) _ (λ u. u ≡ e) _ (json_goes csv e) (json_goes-Ends csv e)
                (λ u x. x)
                (λ b u x. (
                  x.0,
                  or_map
                      (λ k. may (json_of csv) (inr (inl (refl, (marked_before old d e csv s).0 k))))
                      x.1,
                )))
            (λ second.
              Sparing-bind old d (remove csv) _
                (λ e s. remove-Spared old d e csv (may csv (inl refl)) s) (λ third e s. s)))

  pub clean_all-Sparing :
      (old : List Name) (d : Directory F) (csvs : List Name)
      → ((name : Name) → MayGo csvs d name → MayGo old d name)
      → Sparing old d (clean_all csvs)
  unfolding clean_all
  clean_all-Sparing old d [] may e s = s
  clean_all-Sparing old d (csv ∷ more) may e s =
      Sparing-bind old d (clean csv)
        (λ removed. clean_all more >>= λ others. pass (removed ++ others))
        (clean-Sparing old d csv (λ name k. may name (inl k)))
        (λ removed.
          Sparing-bind old d (clean_all more) (λ others. pass (removed ++ others))
            (clean_all-Sparing old d more (λ name k. may name (inr k))) (λ others u t. t))
        e s
