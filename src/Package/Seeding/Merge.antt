-- ===== src/Package/Seeding/Merge.antt =====
-- Seeding the settings is a merge in which what is there wins.
use bxi_car_v.Base.{
  ℕ, true, false, Option, none, some, List, [], ◌∷◌, ◌≡◌, ◌⊎◌, inr, refl, ◌∙◌, sym, ap, arith,
  ==_iff, if◌then◌else◌,
}
use bxi_car_v.Base.Gate.{Ends, Ends-bind, Ends-map}
use bxi_car_v.Package.Seeding.{
  PathOf, same_path, Entry, file, Target, find, Found, symlink, directory, regular, Luck, unlink,
  copied, step, copy_missing, seed_config,
}

abbrev Findings : Type 0
Findings = List (PathOf × Found × Luck)

-- The first of two entries that is there.
abbrev pub or_else : Option Entry → Option Entry → Option Entry
or_else (some e) o = some e
or_else none o = o

-- The abstract view of a source: at a path, its first regular file, with mode 0644.
abbrev pub seeds : Findings → PathOf → Option Entry
seeds [] p = none
seeds ((q, regular bytes, luck) ∷ more) p =
    if same_path p q then some (file bytes 420) else seeds more p
seeds ((q, f, luck) ∷ more) p = seeds more p

same_path_sound : (p q : PathOf) → same_path p q ≡ true → p ≡ q
unfolding same_path
same_path_sound [] [] h = refl
same_path_sound [] (b ∷ q) h = absurd (cc h)
same_path_sound (a ∷ p) [] h = absurd (cc h)
same_path_sound (a ∷ p) (b ∷ q) h = ground (arith, ==_iff a b, same_path_sound p q)

same_path_refl : (p : PathOf) → same_path p p ≡ true
unfolding same_path
same_path_refl [] = refl
same_path_refl (a ∷ p) = ground (arith, ==_iff a a, same_path_refl p)

find-same : (p q : PathOf) (t : Target) → same_path p q ≡ true → find p t ≡ find q t
find-same p q t h = ground (arith, same_path_sound p q h)

find-unlink : (p q : PathOf) (t : Target) → same_path p q ≡ false → find p (unlink q t) ≡ find p t
unfolding find unlink
find-unlink p q [] h = refl
find-unlink p q ((r, e) ∷ t) h = ground (arith, find-unlink p q t h, same_path_sound q r)

-- A path that had an entry has it still.
abbrev pub Kept : PathOf → Target → Target → Type 0
Kept p t u = (find p t ≡ none) ⊎ (find p u ≡ find p t)

module _ (fresh_mode : ℕ) where
  copied-Ends :
      (p q : PathOf) (bytes : List ℕ) (luck : Luck) (o : Option Entry) (t : Target)
      → find q t ≡ o
      → Ends
          (λ u. Kept p t u)
          (λ _ u.
            find p u ≡ or_else (find p t) (if same_path p q then some (file bytes 420) else none))
          (copied fresh_mode q bytes luck o t)
  unfolding copied find unlink
  copied-Ends p q bytes luck o t h =
      ground (arith, find-same p q t, find-unlink p q t, same_path_refl q)

  -- After a step, with what it found and what is found after it.
  abbrev Merged : PathOf → Target → Option Entry → Option Entry → Target → Type 0
  Merged p t now later u = (or_else (find p u) later ≡ or_else (find p t) now) × Kept p t u

  merged_lem :
      (p q : PathOf) (bytes : List ℕ) (later : Option Entry) (t u : Target)
      → find p u ≡ or_else (find p t) (if same_path p q then some (file bytes 420) else none)
      → Merged p t (if same_path p q then some (file bytes 420) else later) later u
  merged_lem p q bytes later t u h = ground arith

  step-Ends :
      (p q : PathOf) (f : Found) (luck : Luck) (more : Findings) (t : Target)
      → Ends
          (λ u. Kept p t u)
          (λ _. Merged p t (seeds ((q, f, luck) ∷ more) p) (seeds more p))
          (step fresh_mode q f luck t)
  unfolding step
  step-Ends p q symlink luck more t = inr refl
  step-Ends p q directory luck more t = (refl, inr refl)
  step-Ends p q (regular bytes) luck more t =
      Ends-map (λ u. Kept p t u) _ (λ u. Kept p t u) _ (copied fresh_mode q bytes luck (find q t) t)
        (copied-Ends p q bytes luck (find q t) t refl) (λ u k. k)
        (λ _ u e. merged_lem p q bytes (seeds more p) t u e)

  pub Kept-trans : (p : PathOf) (t u v : Target) → Kept p t u → Kept p u v → Kept p t v
  Kept-trans p t u v h k = ground arith

  or_else-none : (o : Option Entry) → or_else o none ≡ o
  or_else-none none = refl
  or_else-none (some e) = refl

  -- Seeding from one source implements a merge of maps. However it ends, every path that had an entry
  -- has it unchanged, and in particular no half-written file replaces one. Where it passes, each path
  -- has what it had, or else the source's first regular file there with mode 0644, or else nothing.
  pub copy_missing_merges :
      (p : PathOf) (findings : Findings) (t : Target)
      → Ends
          (λ u. Kept p t u)
          (λ _ u. (find p u ≡ or_else (find p t) (seeds findings p)) × Kept p t u)
          (copy_missing fresh_mode findings t)
  unfolding copy_missing
  copy_missing_merges p [] t = (sym (or_else-none (find p t)), inr refl)
  copy_missing_merges p ((q, f, luck) ∷ more) t =
      Ends-bind (λ u. Kept p t u) (λ _. Merged p t (seeds ((q, f, luck) ∷ more) p) (seeds more p))
        (λ u. Kept p t u)
        (λ _ u. (find p u ≡ or_else (find p t) (seeds ((q, f, luck) ∷ more) p)) × Kept p t u)
        (step fresh_mode q f luck t) (λ _. copy_missing fresh_mode more)
        (step-Ends p q f luck more t) (λ u k. k)
        (λ _ u (e, k).
          Ends-map (λ v. Kept p u v)
            (λ _ v. (find p v ≡ or_else (find p u) (seeds more p)) × Kept p u v) (λ v. Kept p t v)
            (λ _ v. (find p v ≡ or_else (find p t) (seeds ((q, f, luck) ∷ more) p)) × Kept p t v)
            (copy_missing fresh_mode more u) (copy_missing_merges p more u)
            (λ v l. Kept-trans p t u v k l) (λ _ v (g, l). (g ∙ e, Kept-trans p t u v k l)))

  or_else_assoc : (a b c : Option Entry) → or_else (or_else a b) c ≡ or_else a (or_else b c)
  or_else_assoc none b c = refl
  or_else_assoc (some e) b c = refl

  -- The files of an old machine, if one is given.
  abbrev pub migrated_seeds : Option Findings → PathOf → Option Entry
  migrated_seeds none p = none
  migrated_seeds (some migration) p = seeds migration p

  -- Seeding the configuration, with an old machine's settings or without, keeps every entry, also where
  -- it fails. Where it passes, a path has what it had, or else the old machine's file if one is given,
  -- or else the default.
  pub seed_config_merges :
      (p : PathOf) (migration : Option Findings) (defaults : Findings) (t : Target)
      → Ends
          (λ u. Kept p t u)
          (λ _ u.
            find p u ≡ or_else (find p t) (or_else (migrated_seeds migration p) (seeds defaults p)))
          (seed_config fresh_mode migration defaults t)
  unfolding seed_config
  seed_config_merges p none defaults t =
      Ends-map (λ u. Kept p t u) _ (λ u. Kept p t u)
        (λ _ u. find p u ≡ or_else (find p t) (seeds defaults p))
        (copy_missing fresh_mode defaults t) (copy_missing_merges p defaults t) (λ u k. k)
        (λ _ u k. k.0)
  seed_config_merges p (some migration) defaults t =
      Ends-bind (λ u. Kept p t u)
        (λ _ u. (find p u ≡ or_else (find p t) (seeds migration p)) × Kept p t u) (λ u. Kept p t u)
        (λ _ u. find p u ≡ or_else (find p t) (or_else (seeds migration p) (seeds defaults p)))
        (copy_missing fresh_mode migration t) (λ _. copy_missing fresh_mode defaults)
        (copy_missing_merges p migration t) (λ u k. k)
        (λ _ u (e, k).
          Ends-map (λ v. Kept p u v)
            (λ _ v. (find p v ≡ or_else (find p u) (seeds defaults p)) × Kept p u v)
            (λ v. Kept p t v)
            (λ _ v. find p v ≡ or_else (find p t) (or_else (seeds migration p) (seeds defaults p)))
            (copy_missing fresh_mode defaults u) (copy_missing_merges p defaults u)
            (λ v l. Kept-trans p t u v k l)
            (λ _ v (g, l).
              g
              ∙ ap (λ o. or_else o (seeds defaults p)) e
              ∙ or_else_assoc (find p t) (seeds migration p) (seeds defaults p)))
