-- ===== src/Response/Status.antt =====
-- response/mod.rs: `StatusCode` and `Status`.
pub mod Laws
use reqwless.Base.{
  ℕ, ◌≡◌, ◌≢◌, refl, sym, ap, ◌∙◌, Bool, true, false, ◌&&◌, ◌⊎◌, inl, inr, ◌↔◌, arith,
}
use reqwless.Base.{◌==◌, ==_iff, leb, le→leb, leb→le, Bool-cases, if◌then◌else◌, Outcome}

-- A `u16`.
pub record StatusCode : Type 0 where
  pub code : ℕ

pub data UnknownStatusError : Type 0 where
  unknown_status_error : UnknownStatusError

pub data Status : Type 0 where
  ok created accepted no_content partial_content : Status
  moved_permanently found see_other not_modified temporary_redirect permanent_redirect : Status
  bad_request unauthorized forbidden not_found method_not_allowed conflict : Status
  unsupported_media_type range_not_satisfiable too_many_requests : Status
  internal_server_error bad_gateway service_unavailable gateway_timeout : Status
  unknown : Status

-- The discriminants, `status as u16`.
abbrev pub discriminant : Status → ℕ
discriminant Status.ok = 200
discriminant Status.created = 201
discriminant Status.accepted = 202
discriminant Status.no_content = 204
discriminant Status.partial_content = 206
discriminant Status.moved_permanently = 301
discriminant Status.found = 302
discriminant Status.see_other = 303
discriminant Status.not_modified = 304
discriminant Status.temporary_redirect = 307
discriminant Status.permanent_redirect = 308
discriminant Status.bad_request = 400
discriminant Status.unauthorized = 401
discriminant Status.forbidden = 403
discriminant Status.not_found = 404
discriminant Status.method_not_allowed = 405
discriminant Status.conflict = 409
discriminant Status.unsupported_media_type = 415
discriminant Status.range_not_satisfiable = 416
discriminant Status.too_many_requests = 429
discriminant Status.internal_server_error = 500
discriminant Status.bad_gateway = 502
discriminant Status.service_unavailable = 503
discriminant Status.gateway_timeout = 504
discriminant Status.unknown = 0

-- `From<u16> for StatusCode`
abbrev pub from_u16 : ℕ → StatusCode
from_u16 value = record { code = value }

-- `TryFrom<Status> for StatusCode`
unfoldable pub try_from : Status → Outcome UnknownStatusError StatusCode
try_from Status.unknown = Outcome.err unknown_status_error
try_from from = Outcome.ok (record { code = discriminant from })

-- `PartialEq<Status> for StatusCode`
unfoldable pub eq_status : StatusCode → Status → Bool
eq_status self Status.unknown = false
eq_status self rhs = self.code == discriminant rhs

-- `PartialEq<StatusCode> for Status`
abbrev pub eq_code : Status → StatusCode → Bool
eq_code self rhs = eq_status rhs self

abbrev between : ℕ → ℕ → StatusCode → Bool
between low high self = leb low self.code && leb self.code high

unfoldable pub is_informational : StatusCode → Bool
is_informational = between 100 199

unfoldable pub is_successful : StatusCode → Bool
is_successful = between 200 299

unfoldable pub is_redirection : StatusCode → Bool
is_redirection = between 300 399

unfoldable pub is_client_error : StatusCode → Bool
is_client_error = between 400 499

unfoldable pub is_server_error : StatusCode → Bool
is_server_error = between 500 599

-- An arm of the match on a code, and the arms below it.
arm : ℕ → ℕ → Status → Status → Status
arm n code status below = if n == code then status else below

-- `From<StatusCode> for Status`
unfoldable pub from_code : StatusCode → Status
unfolding arm
from_code from =
    let n = from.code in
    arm n 200 Status.ok (
      arm n 201 Status.created (
        arm n 202 Status.accepted (
          arm n 204 Status.no_content (
            arm n 206 Status.partial_content (
              arm n 301 Status.moved_permanently (
                arm n 302 Status.found (
                  arm n 303 Status.see_other (
                    arm n 304 Status.not_modified (
                      arm n 307 Status.temporary_redirect (
                        arm n 308 Status.permanent_redirect (
                          arm n 400 Status.bad_request (
                            arm n 401 Status.unauthorized (
                              arm n 403 Status.forbidden (
                                arm n 404 Status.not_found (
                                  arm n 405 Status.method_not_allowed (
                                    arm n 409 Status.conflict (
                                      arm n 415 Status.unsupported_media_type (
                                        arm n 416 Status.range_not_satisfiable (
                                          arm n 429 Status.too_many_requests (
                                            arm n 500 Status.internal_server_error (
                                              arm n 502 Status.bad_gateway (
                                                arm n 503 Status.service_unavailable (
                                                  arm n 504 Status.gateway_timeout
                                                    Status.unknown)))))))))))))))))))))))

-- `From<u16> for Status`
abbrev pub status_from_u16 : ℕ → Status
status_from_u16 from = from_code (record { code = from })
