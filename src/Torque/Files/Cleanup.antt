-- ===== src/Torque/Files/Cleanup.antt =====
-- What the removal of old reports in arm_torque_report.py leaves alone, and what it removes.
use bxi_car_v.Base.{ℕ, Bool, Option, none, some, List, [], ◌∷◌, drop, ◌≡◌, inl, inr, refl, ◌∙◌}
use bxi_car_v.Base.Gate.{Gate, reject, pass, After, Ends, Ends-and, Ends-bind, ◌>>=◌}
use bxi_car_v.Torque.Files.{
  Name, Node, Directory, lookup, unlink, owned_completed_csvs, json_of, png_of, Stop, Act, remove,
  png_goes, json_goes, remove_if, clean, clean_all, cleanup_old_reports,
}
use bxi_car_v.Torque.Files.Removal.{same_refl, Spared, lookup-removed}
use bxi_car_v.Torque.Files.Sparing.{clean_all-Sparing}

module _ {F : Type 0} where
  abbrev Always : Directory F → Type 0
  Always e = Unit {0}

  always : {A : Type 0} → (g : Gate Stop (Directory F) A) → Ends Always (λ _. Always) g
  always (reject why u) = tt
  always (pass a u) = tt

  -- What holds however the rest starts holds after the whole.
  rest-Ends :
      {A B : Type 0} (m : Act F A) (f : A → Act F B) (Q : B → Directory F → Type 0)
      (e : Directory F)
      → ((a : A) (u : Directory F) → Ends Always Q (f a u))
      → Ends Always Q ((m >>= f) e)
  rest-Ends m f Q e h =
      Ends-bind Always (λ _. Always) Always Q (m e) f (always (m e)) (λ u t. t) (λ a u t. h a u)

  remove_gone : (k : Name) (e : Directory F) → Ends Always (λ _ u. lookup k u ≡ none) (remove k e)
  unfolding remove
  remove_gone k e = removed (lookup k e)
    where
      removed :
          (o : Option (Node F))
          → Ends Always
              (λ _ u. lookup k u ≡ none)
              (elim o [ none ↦ reject Stop.gone e | some x ↦ pass (k ∷ []) (unlink k e) ])
      removed none = tt
      removed (some x) = lookup-removed k k e (same_refl k)

  clean_gone :
      (csv : Name) (e : Directory F) → Ends Always (λ _ u. lookup csv u ≡ none) (clean csv e)
  unfolding clean
  clean_gone csv e =
      rest-Ends (png_goes csv) _ (λ _ u. lookup csv u ≡ none) e
        (λ png u1.
          rest-Ends (remove_if png (png_of csv)) _ (λ _ u. lookup csv u ≡ none) u1
            (λ first u2.
              rest-Ends (json_goes csv) _ (λ _ u. lookup csv u ≡ none) u2
                (λ json u3.
                  rest-Ends (remove_if json (json_of csv)) _ (λ _ u. lookup csv u ≡ none) u3
                    (λ second u4.
                      Ends-bind Always (λ _ u. lookup csv u ≡ none) Always
                        (λ _ u. lookup csv u ≡ none) (remove csv u4) _ (remove_gone csv u4)
                        (λ u t. t) (λ third u k. k)))))

  abbrev pub AllGone : List Name → Directory F → Type 0
  AllGone [] d = Unit
  AllGone (csv ∷ more) d = (lookup csv d ≡ none) × AllGone more d

  -- What is gone stays gone.
  stays_gone :
      (old : List Name) (csv : Name) (d e : Directory F)
      → lookup csv d ≡ none
      → Spared old d e
      → lookup csv e ≡ none
  stays_gone old csv d e h s = elim (s csv) [
    | inl same_as ↦ same_as ∙ h
    | inr (none_left, may) ↦ none_left
  ]

  clean_all_gone :
      (csvs : List Name) (e : Directory F) → Ends Always (λ _. AllGone csvs) (clean_all csvs e)
  unfolding clean_all
  clean_all_gone [] e = tt
  clean_all_gone (csv ∷ more) e =
      Ends-bind Always (λ _ u. lookup csv u ≡ none) Always (λ _. AllGone (csv ∷ more)) (clean csv e)
        _ (clean_gone csv e) (λ u t. t)
        (λ removed u k.
          Ends-bind Always (λ _ v. Spared more u v × AllGone more v) Always
            (λ _. AllGone (csv ∷ more)) (clean_all more u) _
            (Ends-and (Spared more u) (λ _. AllGone more) (clean_all more u)
              (clean_all-Sparing more u more (λ name x. x) u (λ name. inl refl))
              (clean_all_gone more u))
            (λ v t. t) (λ others v (s, g). (stays_gone more csv u v k s, g)))

  -- Removing old reports, whether it ends or raises, changes no entry of the directory but that some
  -- are gone: recordings beyond the number to keep, summaries of these that are marked as generated,
  -- and images of these that such a summary names. Where it ends, all recordings beyond that number
  -- are gone.
  pub cleanup_outcome :
      (decimal : ℕ → Bool) (keep : ℕ) (d : Directory F)
      → After
          (Spared (drop keep (owned_completed_csvs decimal d)) d)
          (cleanup_old_reports decimal keep d)
        × Ends Always
            (λ _. AllGone (drop keep (owned_completed_csvs decimal d)))
            (cleanup_old_reports decimal keep d)
  unfolding cleanup_old_reports
  cleanup_outcome decimal keep d =
      let old = drop keep (owned_completed_csvs decimal d) in
      (clean_all-Sparing old d old (λ name k. k) d (λ name. inl refl), clean_all_gone old d)
