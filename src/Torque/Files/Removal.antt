-- ===== src/Torque/Files/Removal.antt =====
-- What the removal of one entry by arm_torque_report.py leaves in the directory.
use bxi_car_v.Base.{
  Bool, true, false, Option, none, some, List, [], ◌∷◌, ◌≡◌, ◌⊎◌, inl, inr, refl, sym, subst, arith,
  ==_iff, Bool-cases,
}
use bxi_car_v.Base.Gate.{reject, pass, After}
use bxi_car_v.Torque.Files.{
  Name, same, Node, Directory, lookup, unlink, generated, names_png, json_of, png_of, Stop, remove,
  remove_if,
}

pub same_sound : (s t : Name) → same s t ≡ true → s ≡ t
unfolding same
same_sound [] [] h = refl
same_sound [] (b ∷ t) h = absurd (cc h)
same_sound (a ∷ s) [] h = absurd (cc h)
same_sound (a ∷ s) (b ∷ t) h = ground (arith, ==_iff a b, same_sound s t)

pub same_refl : (s : Name) → same s s ≡ true
unfolding same
same_refl [] = refl
same_refl (a ∷ s) = ground (arith, ==_iff a a, same_refl s)

pub or_map : {X Y Z : Type 0} → (Y → Z) → X ⊎ Y → X ⊎ Z
or_map f (inl x) = inl x
or_map f (inr y) = inr (f y)

module _ {F : Type 0} where
  -- What may go for the sake of one of the recordings: the recording, its summary if that is marked as
  -- generated, and its image if the summary is and names it.
  abbrev pub GoesWith : Name → Directory F → Name → Type 0
  GoesWith csv d name =
      (name ≡ csv)
      ⊎ (name ≡ json_of csv) × (generated (lookup (json_of csv) d) ≡ some true)
      ⊎ (name ≡ png_of csv) × (names_png (lookup (json_of csv) d) (png_of csv) ≡ some true)

  abbrev pub MayGo : List Name → Directory F → Name → Type 0
  MayGo [] d name = ⊥
  MayGo (csv ∷ more) d name = GoesWith csv d name ⊎ MayGo more d name

  -- Compared with `d`, an entry is as it was, or it is gone and may go.
  abbrev pub Spared : List Name → Directory F → Directory F → Type 0
  Spared old d e =
      (name : Name) → (lookup name e ≡ lookup name d) ⊎ (lookup name e ≡ none) × MayGo old d name

  pub lookup-removed :
      (k name : Name) (e : Directory F) → same name k ≡ true → lookup name (unlink k e) ≡ none
  unfolding lookup unlink
  lookup-removed k name [] h = refl
  lookup-removed k name ((j, x) ∷ e) h =
      ground (arith, lookup-removed k name e h, same_sound name k, same_sound k j)

  pub lookup-unlink :
      (k name : Name) (e : Directory F)
      → same name k ≡ false
      → lookup name (unlink k e) ≡ lookup name e
  unfolding lookup unlink
  lookup-unlink k name [] h = refl
  lookup-unlink k name ((j, x) ∷ e) h = ground (arith, lookup-unlink k name e h, same_sound k j)

  unlink-Spared :
      (old : List Name) (d e : Directory F) (k : Name)
      → MayGo old d k
      → Spared old d e
      → Spared old d (unlink k e)
  unlink-Spared old d e k may h name = elim (Bool-cases (same name k)) [
    | inl equal ↦
        inr (lookup-removed k name e equal, subst (MayGo old d) (sym (same_sound name k equal)) may)
    | inr apart ↦
        subst (λ o. (o ≡ lookup name d) ⊎ (o ≡ none) × MayGo old d name)
          (sym (lookup-unlink k name e apart)) (h name)
  ]

  pub remove_if-Spared :
      (old : List Name) (d e : Directory F) (b : Bool) (k : Name)
      → (b ≡ false) ⊎ MayGo old d k
      → Spared old d e
      → After (Spared old d) (remove_if b k e)
  unfolding remove_if remove
  remove_if-Spared old d e false k may h = h
  remove_if-Spared old d e true k (inl never) h = absurd (cc never)
  remove_if-Spared old d e true k (inr may) h = removed (lookup k e)
    where
      removed :
          (o : Option (Node F))
          → After
              (Spared old d)
              (elim o [ none ↦ reject Stop.gone e | some x ↦ pass (k ∷ []) (unlink k e) ])
      removed none = h
      removed (some x) = unlink-Spared old d e k may h

  pub remove-Spared :
      (old : List Name) (d e : Directory F) (k : Name)
      → MayGo old d k
      → Spared old d e
      → After (Spared old d) (remove k e)
  unfolding remove_if
  remove-Spared old d e k may h = remove_if-Spared old d e true k (inr may) h
