-- ===== src/Base/Effects.antt =====
-- What a call ends in, and stateful code as explicit state passing.
use mathlib.Core.Path.{◌≡◌, refl}
use mathlib.Core.Option.{Option, none, some}
use mathlib.Core.Bool.{Bool, true, false}

-- `panic` is a Rust panic: a failed assertion, an index out of range, an overflow that is checked.
pub data Outcome (E A : Type 0) : Type 0 where
  ok : A → Outcome E A
  err : E → Outcome E A
  panic : Outcome E A

-- A method on `&mut self`: the state is left behind on every exit, errors included.
abbrev pub Io : Type 0 → Type 0 → Type 0 → Type 0
Io S E A = S → Outcome E A × S

abbrev pub and_then : {S E A B : Type 0} → Outcome E A × S → (A → Io S E B) → Outcome E B × S
and_then (ok a, s) f = f a s
and_then (err e, s) f = (err e, s)
and_then (panic, s) f = (panic, s)

infixl 5 ◌>>=◌ ◌>>◌
abbrev pub ◌>>=◌ : {S E A B : Type 0} → Io S E A → (A → Io S E B) → Io S E B
◌>>=◌ m f s = and_then (m s) f

abbrev pub ◌>>◌ : {S E B : Type 0} → Io S E (Unit {0}) → Io S E B → Io S E B
m >> k = m >>= λ _. k

abbrev pub pure : {S E A : Type 0} → A → Io S E A
pure a s = (ok a, s)

abbrev pub fail : {S E A : Type 0} → E → Io S E A
fail e s = (err e, s)

abbrev pub lift : {S E A : Type 0} → Outcome E A → Io S E A
lift r s = (r, s)

abbrev pub gets : {S E A : Type 0} → (S → A) → Io S E A
gets f s = (ok (f s), s)

abbrev pub modify : {S E : Type 0} → (S → S) → Io S E (Unit {0})
modify f s = (ok tt, f s)

-- `assert!`
abbrev pub check : {S E : Type 0} → Bool → Io S E (Unit {0})
check true s = (ok tt, s)
check false s = (panic, s)

-- `map_err`
abbrev pub map_err : {E F A : Type 0} → (E → F) → Outcome E A → Outcome F A
map_err f (ok a) = ok a
map_err f (err e) = err (f e)
map_err f panic = panic

abbrev pub unwrap_or {ℓ} : {A : Type ℓ} → Option A → A → A
unwrap_or none d = d
unwrap_or (some a) d = a

-- `ok_or`, which turns a missing value into an error
abbrev pub ok_or : {E A : Type 0} → Option A → E → Outcome E A
ok_or none e = err e
ok_or (some a) e = ok a

-- `unwrap` of an option
abbrev pub unwrap : {E A : Type 0} → Option A → Outcome E A
unwrap none = panic
unwrap (some a) = ok a

-- A call on a field `get s` of the state.
abbrev pub zoom : {S T E A : Type 0} → (S → T) → (S → T → S) → Io T E A → Io S E A
zoom get put m s = let r = m (get s) in (r.0, put s r.1)

abbrev pub zoom_err : {S T E F A : Type 0} → (S → T) → (S → T → S) → (E → F) → Io T E A → Io S F A
zoom_err get put f m s = let r = m (get s) in (map_err f r.0, put s r.1)

-- A result that is no panic.
pub data Answers {E A : Type 0} (r : Outcome E A) : Type 0 where
  answers_ok : (a : A) → r ≡ ok a → Answers r
  answers_err : (e : E) → r ≡ err e → Answers r

-- The call does not panic; `P` holds of a result and `Q` of an error, with the state left behind.
pub data Ends {S E A : Type 0} (r : Outcome E A × S) (P : A → S → Type 0) (Q : E → S → Type 0)
    : Type 0 where
  ends_ok : (a : A) (s : S) → r ≡ (ok a, s) → P a s → Ends r P Q
  ends_err : (e : E) (s : S) → r ≡ (err e, s) → Q e s → Ends r P Q

pub Ends-mono :
    {S E A : Type 0} {P P' : A → S → Type 0} {Q Q' : E → S → Type 0} {r : Outcome E A × S}
    → ((a : A) (s : S) → P a s → P' a s)
    → ((e : E) (s : S) → Q e s → Q' e s)
    → Ends r P Q
    → Ends r P' Q'
Ends-mono p q (ends_ok a s e h) = ends_ok a s e (p a s h)
Ends-mono p q (ends_err x s e h) = ends_err x s e (q x s h)

-- The rule for a sequence of two calls.
pub Ends-and_then :
    {S E A B : Type 0} {P : A → S → Type 0} {P' : B → S → Type 0} {Q Q' : E → S → Type 0}
    {r : Outcome E A × S} (f : A → Io S E B)
    → Ends r P Q
    → ((a : A) (s : S) → P a s → Ends (f a s) P' Q')
    → ((e : E) (s : S) → Q e s → Q' e s)
    → Ends (and_then r f) P' Q'
Ends-and_then f (ends_ok a s e h) p q = rw e (p a s h)
Ends-and_then f (ends_err x s e h) p q = rw e (ends_err x s refl (q x s h))

-- The rule for a result that is looked at next.
pub Ends-lift :
    {S E A B : Type 0} {P : B → S → Type 0} {Q : E → S → Type 0} (r : Outcome E A)
    (f : A → Io S E B) (s : S)
    → Answers r
    → ((a : A) → r ≡ ok a → Ends (f a s) P Q)
    → ((e : E) → Q e s)
    → Ends (and_then (r, s) f) P Q
Ends-lift r f s (answers_ok a e) p q = rw e (p a e)
Ends-lift r f s (answers_err x e) p q = rw e (ends_err x s refl (q x))

-- A sequence that succeeds has a first part that does.
pub and_then-eq_ok :
    {S E A B : Type 0} (r : Outcome E A × S) (f : A → Io S E B) (b : B) (s' : S)
    → and_then r f ≡ (ok b, s')
    → (a : A) × (t : S) × (r ≡ (ok a, t)) × (f a t ≡ (ok b, s'))
and_then-eq_ok (ok a, t) f b s' e = (a, t, refl, e)
and_then-eq_ok (err x, t) f b s' e = cc
and_then-eq_ok (panic, t) f b s' e = cc
