-- ===== src/Torque/Reports/Targets.antt =====
-- Writing a report replaces no file that is not a report of the recording.
use bxi_car_v.Base.Text.{codes}
use bxi_car_v.Base.{
  ℕ, Bool, true, false, Option, none, some, [], ◌∷◌, ◌++◌, ◌≡◌, ◌⊎◌, inl, inr, refl, ◌∙◌, sym,
  subst, ap, arith, ==_iff, if◌then◌else◌, Bool-cases,
}
use bxi_car_v.Base.Gate.{
  reject, pass, After, After-bind, After-map, Ends, Ends-bind, Ends-After, After-Ends, ◌>>◌,
}
use bxi_car_v.Base.Value.{Value}
use bxi_car_v.Torque.Files.{
  Name, same, Node, regular, symlink, Directory, lookup, unlink, generated, names_png, json_of,
  png_of, with_suffix, stem,
}
use bxi_car_v.Torque.Files.Removal.{same_sound, same_refl, lookup-unlink}
use bxi_car_v.Torque.Reports.{
  Refusal, exists, is_plain, is_link, require, assert_output_target, replace_output, succeed,
  write_summary, write_image, generate_report,
}

same-append : (r s t : Name) → same (r ++ s) (r ++ t) ≡ same s t
unfolding same
same-append [] s t = refl
same-append (a ∷ r) s t = ground (arith, ==_iff a a, same-append r s t)

suffixes_differ : same (codes ".json") (codes ".png") ≡ false
unfolding codes same
suffixes_differ = refl

-- A report's two files have different names.
apart : (csv : Name) → same (json_of csv) (png_of csv) ≡ false
unfolding with_suffix
apart csv = apart_at (stem csv)
  where
    apart_at :
        (o : Option Name)
        → same
            (elim o [ none ↦ csv ++ codes ".json" | some r ↦ r ++ codes ".json" ])
            (elim o [ none ↦ csv ++ codes ".png" | some r ↦ r ++ codes ".png" ])
          ≡ false
    apart_at none = same-append csv (codes ".json") (codes ".png") ∙ suffixes_differ
    apart_at (some r) = same-append r (codes ".json") (codes ".png") ∙ suffixes_differ

module _ {F : Type 0} where
  -- There is no entry, or a symbolic link that leads to nothing.
  abbrev pub Vacant : Option (Node F) → Type 0
  Vacant none = Unit
  Vacant (some (symlink false)) = Unit
  Vacant _ = ⊥

  exists-Vacant : (o : Option (Node F)) → exists o ≡ false → Vacant o
  unfolding exists
  exists-Vacant none h = tt
  exists-Vacant (some (symlink false)) h = tt
  exists-Vacant _ h = absurd (cc h)

  -- There is a regular file, and no link.
  abbrev pub IsRegular : Option (Node F) → Type 0
  IsRegular (some (regular v)) = Unit
  IsRegular _ = ⊥

  is_plain-IsRegular : (o : Option (Node F)) → is_plain o ≡ true → IsRegular o
  unfolding is_plain
  is_plain-IsRegular (some (regular v)) h = tt
  is_plain-IsRegular _ h = absurd (cc h)

  -- A name whose entry may be replaced: it is vacant, or it is a regular file and the mark is there.
  abbrev pub Free : Directory F → Name → Option Bool → Type 0
  Free d name mark = Vacant (lookup name d) ⊎ IsRegular (lookup name d) × (mark ≡ some true)

  -- Compared with `d`, only the entry of this name may have changed, and only if it was free.
  abbrev Only : Directory F → Name → Option Bool → Directory F → Type 0
  Only d k mark e = (name : Name) → (lookup name e ≡ lookup name d) ⊎ (name ≡ k) × Free d k mark

  put-Only :
      (d : Directory F) (k : Name) (x : Node F) (mark : Option Bool)
      → Free d k mark
      → Only d k mark ((k, x) ∷ unlink k d)
  unfolding lookup
  put-Only d k x mark free name = elim (Bool-cases (same name k)) [
    | inl equal ↦ inr (same_sound name k equal, free)
    | inr distinct ↦ inl (ground (arith, lookup-unlink k name d distinct))
  ]

  -- Either of two endings.
  After-either :
      (P : Directory F → Type 0) (a b : Bool) (why : Refusal) (d u : Directory F)
      → P d
      → P u
      → After {A = Unit {0}} P (if a then (if b then reject why d else pass tt u) else pass tt u)
  After-either P true true why d u h k = h
  After-either P true false why d u h k = k
  After-either P false b why d u h k = k

  replaced-Only :
      (d : Directory F) (k : Name) (x : Node F) (mark : Option Bool)
      → Free d k mark
      → After (Only d k mark) (replace_output k x d)
  unfolding replace_output
  replaced-Only d k x mark free =
      After-either (Only d k mark) (exists (lookup k d)) (is_link (lookup k d))
        Refusal.unknown_output d ((k, x) ∷ unlink k d) (λ name. inl refl) (put-Only d k x mark free)

  -- The check of a target: it leaves the directory alone, and passes only a free one.
  checked_lem :
      (d : Directory F) (k : Name) (mark : Option Bool)
      → Ends
          (λ u. u ≡ d)
          (λ _ u. (u ≡ d) × Free d k mark)
          (assert_output_target (lookup k d) mark d)
  unfolding assert_output_target require
  checked_lem d k mark = ground (arith, exists-Vacant (lookup k d), is_plain-IsRegular (lookup k d))

  succeed-Ends : (b : Bool) (d : Directory F) → Ends (λ u. u ≡ d) (λ _ u. u ≡ d) (succeed b d)
  unfolding succeed
  succeed-Ends true d = refl
  succeed-Ends false d = refl

  -- A check, a step that may fail, and the replacement.
  written-Only :
      (d : Directory F) (k : Name) (x : Node F) (mark : Option Bool) (b : Bool)
      → After
          (Only d k mark)
          ((assert_output_target (lookup k d) mark >> (succeed b >> replace_output k x)) d)
  written-Only d k x mark b = Ends-After (Only d k mark) _ (
      Ends-bind (λ u. u ≡ d) (λ _ u. (u ≡ d) × Free d k mark) (Only d k mark) (λ _. Only d k mark)
        (assert_output_target (lookup k d) mark d) (λ _. succeed b >> replace_output k x)
        (checked_lem d k mark) (λ u e. subst (Only d k mark) (sym e) (λ name. inl refl))
        (λ _ u (e, free).
          Ends-bind (λ v. v ≡ u) (λ _ v. v ≡ u) (Only d k mark) (λ _. Only d k mark) (succeed b u)
            (λ _. replace_output k x) (succeed-Ends b u)
            (λ v g. subst (Only d k mark) (sym (g ∙ e)) (λ name. inl refl))
            (λ _ v g. After-Ends (Only d k mark) (replace_output k x v) (
              subst (λ z. After (Only d k mark) (replace_output k x z)) (sym (g ∙ e))
                (replaced-Only d k x mark free)))))

  abbrev JsonFree : Name → Directory F → Type 0
  JsonFree csv d = Free d (json_of csv) (generated (lookup (json_of csv) d))

  abbrev PngFree : Name → Directory F → Type 0
  PngFree csv d = Free d (png_of csv) (names_png (lookup (json_of csv) d) (png_of csv))

  -- Compared with `d`, only the report's two files may have changed, and only if they were free.
  abbrev pub Writes : Name → Directory F → Directory F → Type 0
  Writes csv d e =
      (name : Name)
      → (lookup name e ≡ lookup name d)
        ⊎ (name ≡ json_of csv) × JsonFree csv d
        ⊎ (name ≡ png_of csv) × PngFree csv d

  summary-Only :
      (csv : Name) (document : Value F) (b : Bool) (d : Directory F)
      → After
          (Only d (json_of csv) (generated (lookup (json_of csv) d)))
          (write_summary csv document b d)
  unfolding write_summary
  summary-Only csv document b d = written-Only d (json_of csv) _ _ b

  image-Only :
      (csv : Name) (b : Bool) (d : Directory F)
      → After
          (Only d (png_of csv) (names_png (lookup (json_of csv) d) (png_of csv)))
          (write_image csv b d)
  unfolding write_image
  image-Only csv b d = written-Only d (png_of csv) _ _ b

  -- Writing the image leaves the summary as it was.
  summary_same :
      (csv : Name) (mark : Option Bool) (d u : Directory F)
      → Only d (png_of csv) mark u
      → lookup (json_of csv) u ≡ lookup (json_of csv) d
  summary_same csv mark d u h = elim (h (json_of csv)) [
    | inl e ↦ e
    | inr (e, free) ↦
        absurd
          (cc (sym (apart csv) ∙ ap (λ name. same name (png_of csv)) e ∙ same_refl (png_of csv)))
  ]

  both-Writes :
      (csv : Name) (d u v : Directory F)
      → Only d (png_of csv) (names_png (lookup (json_of csv) d) (png_of csv)) u
      → Only u (json_of csv) (generated (lookup (json_of csv) u)) v
      → Writes csv d v
  both-Writes csv d u v h k name = elim (k name) [
    | inl e ↦ elim (h name) [ inl f ↦ inl (e ∙ f) | inr png ↦ inr (inr png) ]
    | inr (e, free) ↦ inr (
        inl (
          e,
          subst (λ o. Vacant o ⊎ IsRegular o × (generated o ≡ some true)) (summary_same csv _ d u h)
              free,
        ))
  ]

  -- Writing a report, whether it ends or raises, changes at most the summary and the image of its
  -- recording: the summary only where there was no entry, or a symbolic link that leads to nothing, or
  -- a regular file that is marked as generated; the image only where there was no entry, or such a
  -- link, or a regular file that is named by a summary marked as generated.
  pub report_spares :
      (csv : Name) (rows : ℕ) (document : Bool → Value F) (draws writes : Bool) (d : Directory F)
      → After (Writes csv d) (generate_report csv rows document draws writes d)
  unfolding generate_report
  report_spares csv rows document draws writes d = ground (
    arith,
    After-map _ (Writes csv d) (write_summary csv (document false) writes d)
        (summary-Only csv (document false) writes d)
        (λ e h name. elim (h name) [ inl x ↦ inl x | inr x ↦ inr (inl x) ]),
    After-bind (Only d (png_of csv) (names_png (lookup (json_of csv) d) (png_of csv)))
        (Writes csv d) (write_image csv draws d) (λ _. write_summary csv (document true) writes)
        (image-Only csv draws d) (λ u h name. elim (h name) [ inl x ↦ inl x | inr x ↦ inr (inr x) ])
        (λ _ u h.
          After-map _ (Writes csv d) (write_summary csv (document true) writes u)
            (summary-Only csv (document true) writes u) (λ v k. both-Writes csv d u v h k)),
  )
