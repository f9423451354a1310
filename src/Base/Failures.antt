-- ===== src/Base/Failures.antt =====
-- What is known of a call's errors, whether or not it panics.
use mathlib.Core.Path.{◌≡◌}
use mathlib.Core.Bool.{Bool, true, false}
use mathlib.Core.Path.{subst}
use reqwless.Base.Effects.{Outcome, ok, err, panic, Io, and_then, map_err, Ends, ends_ok, ends_err}
use reqwless.Base.Tests.{if◌then◌else◌}

-- If the call fails, then with an error, and in a state, of which `Q` holds.
pub data Causes {X E A : Type 0} (Q : E → X → Type 0) : Outcome E A × X → Type 0 where
  causes_ok : (a : A) (s : X) → Causes Q (ok a, s)
  causes_err : (x : E) (s : X) → Q x s → Causes Q (err x, s)
  causes_panic : (s : X) → Causes Q (panic, s)

pub Causes-and_then :
    {X E A B : Type 0} {Q : E → X → Type 0} (r : Outcome E A × X) (f : A → Io X E B)
    → Causes Q r
    → ((a : A) (s : X) → Causes Q (f a s))
    → Causes Q (and_then r f)
Causes-and_then (ok a, s) f h k = k a s
Causes-and_then (err x, s) f (causes_err _ _ h) k = causes_err x s h
Causes-and_then (panic, s) f h k = causes_panic s

pub Causes-if :
    {X E A : Type 0} {Q : E → X → Type 0} (b : Bool) (m k : Io X E A) (s : X)
    → Causes Q (m s)
    → Causes Q (k s)
    → Causes Q ((if b then m else k) s)
Causes-if true m k s p q = p
Causes-if false m k s p q = q

pub Causes-test :
    {X E A : Type 0} {Q : E → X → Type 0} (b : Bool) (x y : Outcome E A × X)
    → Causes Q x
    → Causes Q y
    → Causes Q (if b then x else y)
Causes-test true x y p q = p
Causes-test false x y p q = q

pub Causes-either :
    {X E A : Type 0} {Q : E → X → Type 0} (b : Bool) (x y : Outcome E A) (s : X)
    → Causes Q (x, s)
    → Causes Q (y, s)
    → Causes Q (if b then x else y, s)
Causes-either true x y s p q = p
Causes-either false x y s p q = q

-- A result that is looked at next, in the same state.
pub Causes-lift :
    {X E A B : Type 0} {Q : E → X → Type 0} (r : Outcome E A) (f : A → Io X E B) (s : X)
    → Causes Q (r, s)
    → ((a : A) → Causes Q (f a s))
    → Causes Q (and_then (r, s) f)
Causes-lift (ok a) f s h k = k a
Causes-lift (err x) f s (causes_err _ _ h) k = causes_err x s h
Causes-lift panic f s h k = causes_panic s

-- A call on a part of the state, whose errors are converted.
pub Causes-mapped :
    {X Y F E A : Type 0} {Q : E → X → Type 0} (f : F → E) (put : Y → X) (r : Outcome F A × Y)
    → ((e : F) (y : Y) → Q (f e) (put y))
    → Causes Q (map_err f r.0, put r.1)
Causes-mapped f put (ok a, y) h = causes_ok a (put y)
Causes-mapped f put (err e, y) h = causes_err (f e) (put y) (h e y)
Causes-mapped f put (panic, y) h = causes_panic (put y)

pub Causes-elsewhere :
    {X Y E A : Type 0} {Q : E → Y → Type 0} {Q' : E → X → Type 0} (r : Outcome E A × Y) (s : X)
    → Causes Q r
    → ((x : E) (y : Y) → Q x y → Q' x s)
    → Causes Q' (r.0, s)
Causes-elsewhere (ok a, y) s h k = causes_ok a s
Causes-elsewhere (err e, y) s (causes_err _ _ h) k = causes_err e s (k e y h)
Causes-elsewhere (panic, y) s h k = causes_panic s

-- A call that ends, with what is known of its errors.
pub Ends-Causes :
    {X E A : Type 0} {P : A → X → Type 0} {Q Q' : E → X → Type 0} (r : Outcome E A × X)
    → Ends r P Q
    → Causes Q' r
    → Ends r P Q'
Ends-Causes r (ends_ok a s e p) h = ends_ok a s e p
Ends-Causes r (ends_err x s e _) h = ends_err x s e (cause (subst (Causes _) e h))
  where
    cause :
        {X E A : Type 0} {Q : E → X → Type 0} {x : E} {s : X} → Causes {A = A} Q (err x, s) → Q x s
    cause (causes_err _ _ h) = h

-- A call that ends, and succeeds.
pub Ends-at :
    {X E A : Type 0} {P : A → X → Type 0} {Q : E → X → Type 0} {r : Outcome E A × X} (a : A) (s : X)
    → r ≡ (ok a, s)
    → Ends r P Q
    → P a s
Ends-at {P = P} a s e (ends_ok a' s' e' p) =
    let same_a : a' ≡ a = cc in
    let same_s : s' ≡ s = cc in subst (λ z. P z s) same_a (subst (P a') same_s p)
Ends-at a s e (ends_err x s' e' _) = absurd (cc)
