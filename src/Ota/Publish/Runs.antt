-- ===== src/Ota/Publish/Runs.antt =====
-- Actions on the log of a publication that start where one predicate holds and leave another.
use bxi_car_v.Base.{Bool, true, false, Option, none, some, List, arith}
use bxi_car_v.Base.Gate.{Ends, Ends-bind, Ends-map, ◌>>=◌}
use bxi_car_v.Ota.Api.{Called}
use bxi_car_v.Ota.Publish.{Event, Act, require, of_called, of_option}

-- An action that may start where `P` holds of the log, and leaves `P'`, or `Q` where it passes.
abbrev pub Runs :
    {A : Type 0}
    → (List Event → Type 0)
    → (List Event → Type 0)
    → (A → List Event → Type 0)
    → Act A
    → Type 0
Runs P P' Q m = (log : List Event) → P log → Ends P' Q (m log)

pub Runs-bind :
    {A B : Type 0} (P P' : List Event → Type 0) (Q : A → List Event → Type 0)
    (Q' : B → List Event → Type 0) (m : Act A) (f : A → Act B)
    → Runs P P' Q m
    → ((a : A) → Runs (Q a) P' Q' (f a))
    → Runs P P' Q' (m >>= f)
Runs-bind P P' Q Q' m f h k log p =
    Ends-bind P' Q P' Q' (m log) f (h log p) (λ s x. x) (λ a s x. k a s x)

pub Runs-map :
    {A : Type 0} (P P' : List Event → Type 0) (Q Q' : A → List Event → Type 0) (m : Act A)
    → Runs P P' Q m
    → ((a : A) (l : List Event) → Q a l → Q' a l)
    → Runs P P' Q' m
Runs-map P P' Q Q' m h up log p = Ends-map P' Q P' Q' (m log) (h log p) (λ s x. x) up

-- An action that leaves the log alone keeps what holds of it.
pub Runs-require :
    (P P' : List Event → Type 0) (b : Bool)
    → ((l : List Event) → P l → P' l)
    → Runs P P' (λ _. P) (require b)
unfolding require
Runs-require P P' true up log p = p
Runs-require P P' false up log p = up log p

pub Runs-called :
    {A : Type 0} (P : List Event → Type 0) (c : Called A) → Runs P P (λ _. P) (of_called c)
unfolding of_called
Runs-called P c log p = ground arith

pub Runs-option :
    {A : Type 0} (P : List Event → Type 0) (o : Option A) → Runs P P (λ _. P) (of_option o)
unfolding of_option
Runs-option P none log p = p
Runs-option P (some a) log p = p
