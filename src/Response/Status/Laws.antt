-- ===== src/Response/Status/Laws.antt =====
-- Status codes and the statuses that have a name.
use reqwless.Base.{
  ℕ, ◌+◌, ◌*◌, ◌/◌, ◌≡◌, ◌≢◌, refl, sym, ap, ◌∙◌, true, ◌&&◌, ◌⊎◌, inl, inr, ◌↔◌, arith,
}
use reqwless.Base.{◌==◌, ==_iff, leb, Bool-cases, Outcome}
use reqwless.Response.Status.{
  Status, StatusCode, discriminant, from_code, try_from, eq_status, arm, is_informational,
  is_successful, is_redirection, is_client_error, is_server_error,
}

abbrev Matches : ℕ → Status → Type 0
Matches n s = (s ≡ Status.unknown) ⊎ (discriminant s ≡ n)

arm-Matches :
    (n : ℕ) (s below : Status) → Matches n below → Matches n (arm n (discriminant s) s below)
unfolding arm
arm-Matches n s below h = elim (Bool-cases (n == discriminant s)) [
  | inl e ↦ rw e (inr (sym ((==_iff n (discriminant s)).0 e)))
  | inr e ↦ rw e h
]

-- A code is turned into the status with that discriminant, or into no named one.
from_code-Matches : (c : StatusCode) → Matches c.code (from_code c)
unfolding from_code
from_code-Matches c =
    let n = c.code in
    arm-Matches n Status.ok _ (
      arm-Matches n Status.created _ (
        arm-Matches n Status.accepted _ (
          arm-Matches n Status.no_content _ (
            arm-Matches n Status.partial_content _ (
              arm-Matches n Status.moved_permanently _ (
                arm-Matches n Status.found _ (
                  arm-Matches n Status.see_other _ (
                    arm-Matches n Status.not_modified _ (
                      arm-Matches n Status.temporary_redirect _ (
                        arm-Matches n Status.permanent_redirect _ (
                          arm-Matches n Status.bad_request _ (
                            arm-Matches n Status.unauthorized _ (
                              arm-Matches n Status.forbidden _ (
                                arm-Matches n Status.not_found _ (
                                  arm-Matches n Status.method_not_allowed _ (
                                    arm-Matches n Status.conflict _ (
                                      arm-Matches n Status.unsupported_media_type _ (
                                        arm-Matches n Status.range_not_satisfiable _ (
                                          arm-Matches n Status.too_many_requests _ (
                                            arm-Matches n Status.internal_server_error _ (
                                              arm-Matches n Status.bad_gateway _ (
                                                arm-Matches n Status.service_unavailable _ (
                                                  arm-Matches n Status.gateway_timeout _
                                                    (inl refl))))))))))))))))))))))))

-- A status is unknown, or it is turned into the code of its discriminant, and that back into it.
pub from_code-try_from :
    (s : Status)
    → (s ≡ Status.unknown)
      ⊎ ((try_from s ≡ Outcome.ok (record { code = discriminant s }))
          × (from_code (record { code = discriminant s }) ≡ s))
unfolding from_code try_from
from_code-try_from Status.unknown = inl refl
from_code-try_from Status.ok = inr (refl, refl)
from_code-try_from Status.created = inr (refl, refl)
from_code-try_from Status.accepted = inr (refl, refl)
from_code-try_from Status.no_content = inr (refl, refl)
from_code-try_from Status.partial_content = inr (refl, refl)
from_code-try_from Status.moved_permanently = inr (refl, refl)
from_code-try_from Status.found = inr (refl, refl)
from_code-try_from Status.see_other = inr (refl, refl)
from_code-try_from Status.not_modified = inr (refl, refl)
from_code-try_from Status.temporary_redirect = inr (refl, refl)
from_code-try_from Status.permanent_redirect = inr (refl, refl)
from_code-try_from Status.bad_request = inr (refl, refl)
from_code-try_from Status.unauthorized = inr (refl, refl)
from_code-try_from Status.forbidden = inr (refl, refl)
from_code-try_from Status.not_found = inr (refl, refl)
from_code-try_from Status.method_not_allowed = inr (refl, refl)
from_code-try_from Status.conflict = inr (refl, refl)
from_code-try_from Status.unsupported_media_type = inr (refl, refl)
from_code-try_from Status.range_not_satisfiable = inr (refl, refl)
from_code-try_from Status.too_many_requests = inr (refl, refl)
from_code-try_from Status.internal_server_error = inr (refl, refl)
from_code-try_from Status.bad_gateway = inr (refl, refl)
from_code-try_from Status.service_unavailable = inr (refl, refl)
from_code-try_from Status.gateway_timeout = inr (refl, refl)

named_iff :
    (c : StatusCode) (s : Status)
    → (s ≡ Status.unknown)
      ⊎ ((try_from s ≡ Outcome.ok (record { code = discriminant s }))
          × (from_code (record { code = discriminant s }) ≡ s))
    → eq_status c s ≡ (c.code == discriminant s)
    → s ≢ Status.unknown
    → (eq_status c s ≡ true) ↔ (from_code c ≡ s)
named_iff c s (inl e) eq named = absurd (named e)
named_iff c s (inr (_, es)) eq named = (
  (λ t.
      ap (λ n. from_code (record { code = n })) ((==_iff c.code (discriminant s)).0 (sym eq ∙ t))
      ∙ es),
  (λ e. eq ∙ (==_iff c.code (discriminant s)).1 (back e (from_code-Matches c))),
)
  where
    back : from_code c ≡ s → Matches c.code (from_code c) → c.code ≡ discriminant s
    back e (inl u) = absurd (named (sym e ∙ u))
    back e (inr m) = sym m ∙ ap discriminant e

eq_status-named :
    (c : StatusCode) (s : Status) → s ≢ Status.unknown → eq_status c s ≡ (c.code == discriminant s)
unfolding eq_status
eq_status-named c Status.unknown named = absurd (named refl)
eq_status-named c Status.ok named = refl
eq_status-named c Status.created named = refl
eq_status-named c Status.accepted named = refl
eq_status-named c Status.no_content named = refl
eq_status-named c Status.partial_content named = refl
eq_status-named c Status.moved_permanently named = refl
eq_status-named c Status.found named = refl
eq_status-named c Status.see_other named = refl
eq_status-named c Status.not_modified named = refl
eq_status-named c Status.temporary_redirect named = refl
eq_status-named c Status.permanent_redirect named = refl
eq_status-named c Status.bad_request named = refl
eq_status-named c Status.unauthorized named = refl
eq_status-named c Status.forbidden named = refl
eq_status-named c Status.not_found named = refl
eq_status-named c Status.method_not_allowed named = refl
eq_status-named c Status.conflict named = refl
eq_status-named c Status.unsupported_media_type named = refl
eq_status-named c Status.range_not_satisfiable named = refl
eq_status-named c Status.too_many_requests named = refl
eq_status-named c Status.internal_server_error named = refl
eq_status-named c Status.bad_gateway named = refl
eq_status-named c Status.service_unavailable named = refl
eq_status-named c Status.gateway_timeout named = refl

-- A code is equal to a named status exactly if it is turned into that status.
pub eq_status_iff :
    (c : StatusCode) (s : Status) → s ≢ Status.unknown → (eq_status c s ≡ true) ↔ (from_code c ≡ s)
eq_status_iff c s named = named_iff c s (from_code-try_from s) (eq_status-named c s named) named

between_iff :
    (n low high k : ℕ)
    → low ≡ 100 * k
    → high ≡ 100 * k + 99
    → (leb low n && leb n high ≡ true) ↔ (n / 100 ≡ k)
between_iff n low high k l h = ((λ e. ground arith), (λ e. ground arith))

-- Each class is that of the codes with its first digit.
pub class_iff :
    (c : StatusCode)
    → ((is_informational c ≡ true) ↔ (c.code / 100 ≡ 1))
      × ((is_successful c ≡ true) ↔ (c.code / 100 ≡ 2))
      × ((is_redirection c ≡ true) ↔ (c.code / 100 ≡ 3))
      × ((is_client_error c ≡ true) ↔ (c.code / 100 ≡ 4))
      × ((is_server_error c ≡ true) ↔ (c.code / 100 ≡ 5))
unfolding is_informational is_successful is_redirection is_client_error is_server_error
class_iff c = (
  between_iff c.code 100 199 1 refl refl,
  between_iff c.code 200 299 2 refl refl,
  between_iff c.code 300 399 3 refl refl,
  between_iff c.code 400 499 4 refl refl,
  between_iff c.code 500 599 5 refl refl,
)
