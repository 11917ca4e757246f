-- ===== src/Base/Gate.antt =====
-- Code that reads and writes a state and may stop early: an action ends with a value, or with the
-- reason of the early return or exception, and the state comes back either way.
use mathlib.Core.Path.{◌≡◌, refl}
use native.Mathlib.Omega.{arith}

pub data Gate (R S A : Type 0) : Type 0 where
  reject : R → S → Gate R S A
  pass : A → S → Gate R S A

infixl 5 ◌>>=◌ ◌>>◌
abbrev pub ◌>>=◌ : {R S A B : Type 0} → (S → Gate R S A) → (A → S → Gate R S B) → S → Gate R S B
◌>>=◌ m f s = elim (m s) [ reject why t ↦ reject why t | pass a t ↦ f a t ]

abbrev pub ◌>>◌ : {R S B : Type 0} → (S → Gate R S (Unit {0})) → (S → Gate R S B) → S → Gate R S B
m >> k = m >>= λ _. k

-- `P` holds of the state that an action leaves, whichever way it ends.
abbrev pub After : {R S A : Type 0} → (S → Type 0) → Gate R S A → Type 0
After P (reject why s) = P s
After P (pass a s) = P s

-- `P` is kept by an action.
abbrev pub Keeps : {R S A : Type 0} → (S → Type 0) → (S → Gate R S A) → Type 0
Keeps P m = (s : _) → P s → After P (m s)

module _ {R S A B : Type 0} (P : S → Type 0) where
  Keeps-continue :
      (f : A → S → Gate R S B)
      → ((a : A) → Keeps P (f a))
      → (g : Gate R S A) → After P g
      → After P (elim g [ reject why t ↦ reject why t | pass a t ↦ f a t ])
  Keeps-continue f kf (reject why t) h = h
  Keeps-continue f kf (pass a t) h = kf a t h

  pub Keeps-bind :
      (m : S → Gate R S A) (f : A → S → Gate R S B)
      → Keeps P m
      → ((a : A) → Keeps P (f a))
      → Keeps P (m >>= f)
  Keeps-bind m f km kf s h = Keeps-continue f kf (m s) (km s h)

-- A bind that passes has passed its first part.
pub pass_of_bind :
    {R S A B : Type 0} (g : Gate R S A) (f : A → S → Gate R S B) {b : B} {u : S}
    → elim g [ reject why t ↦ reject why t | pass a t ↦ f a t ] ≡ pass b u
    → (a : A) × (t : S) × (g ≡ pass a t) × (f a t ≡ pass b u)
pass_of_bind (reject why t) f h = absurd (cc h)
pass_of_bind (pass a t) f h = (a, t, refl, h)

pub After-pass :
    {R S A : Type 0} (P : S → Type 0) (g : Gate R S A) {a : A} {t : S}
    → After P g
    → g ≡ pass a t
    → P t
After-pass P (reject why s) h e = absurd (cc e)
After-pass P (pass a s) h e = ground arith

-- How an action ends: `P` of the state after a rejection, `Q` of the value and the state after a pass.
abbrev pub Ends : {R S A : Type 0} → (S → Type 0) → (A → S → Type 0) → Gate R S A → Type 0
Ends P Q (reject why s) = P s
Ends P Q (pass a s) = Q a s

pub Ends-bind :
    {R S A B : Type 0} (P : S → Type 0) (Q : A → S → Type 0) (P' : S → Type 0) (Q' : B → S → Type 0)
    (g : Gate R S A) (f : A → S → Gate R S B)
    → Ends P Q g
    → ((s : S) → P s → P' s)
    → ((a : A) (s : S) → Q a s → Ends P' Q' (f a s))
    → Ends P' Q' (elim g [ reject why t ↦ reject why t | pass a t ↦ f a t ])
Ends-bind P Q P' Q' (reject why s) f h up rest = up s h
Ends-bind P Q P' Q' (pass a s) f h up rest = rest a s h

pub After-Ends : {R S A : Type 0} (P : S → Type 0) (g : Gate R S A) → After P g → Ends P (λ a. P) g
After-Ends P (reject why s) h = h
After-Ends P (pass a s) h = h

pub Ends-map :
    {R S A : Type 0} (P : S → Type 0) (Q : A → S → Type 0) (P' : S → Type 0) (Q' : A → S → Type 0)
    (g : Gate R S A)
    → Ends P Q g
    → ((s : S) → P s → P' s)
    → ((a : A) (s : S) → Q a s → Q' a s)
    → Ends P' Q' g
Ends-map P Q P' Q' (reject why s) h up rest = up s h
Ends-map P Q P' Q' (pass a s) h up rest = rest a s h

pub After-bind :
    {R S A B : Type 0} (P Q : S → Type 0) (g : Gate R S A) (k : A → S → Gate R S B)
    → After P g
    → ((s : S) → P s → Q s)
    → ((a : A) (s : S) → P s → After Q (k a s))
    → After Q (elim g [ reject why t ↦ reject why t | pass a t ↦ k a t ])
After-bind P Q (reject why s) k h up rest = up s h
After-bind P Q (pass a s) k h up rest = rest a s h

pub Ends-and :
    {R S A : Type 0} (P : S → Type 0) (Q : A → S → Type 0) (g : Gate R S A)
    → After P g
    → Ends (λ s. Unit {0}) Q g
    → Ends (λ s. Unit {0}) (λ a s. P s × Q a s) g
Ends-and P Q (reject why s) a h = tt
Ends-and P Q (pass x s) a h = (a, h)

pub Ends-pass :
    {R S A : Type 0} (P : S → Type 0) (Q : A → S → Type 0) (g : Gate R S A) {a : A} {t : S}
    → Ends P Q g
    → g ≡ pass a t
    → Q a t
Ends-pass P Q (reject why s) h e = absurd (cc e)
Ends-pass P Q (pass x s) h e = ground arith

pub After-map :
    {R S A : Type 0} (P Q : S → Type 0) (g : Gate R S A)
    → After P g
    → ((s : S) → P s → Q s)
    → After Q g
After-map P Q (reject why s) h up = up s h
After-map P Q (pass a s) h up = up s h

pub Ends-After : {R S A : Type 0} (P : S → Type 0) (g : Gate R S A) → Ends P (λ a. P) g → After P g
Ends-After P (reject why s) h = h
Ends-After P (pass a s) h = h
