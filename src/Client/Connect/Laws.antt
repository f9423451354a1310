-- ===== src/Client/Connect/Laws.antt =====
-- client.rs: which kind of connection `HttpClient::connect` opens.
use reqwless.Base.{◌≡◌, refl, sym, ap, ◌∙◌, subst, Bool, true, false, Bytes, Option, none, some}
use reqwless.Base.{Outcome, ok, err, panic, Io, gets, and_then, if◌then◌else◌}
use reqwless.Errors.{Error, from_kind}
use reqwless.Client.{HttpConnection, Transport}
use reqwless.Client.Connect.{
  Feature, Url, Stack, HttpClient, on_network, encrypted, secure, secure_with, unsecured_with,
  connect,
}

module _ {C W S : Type 0} where
  abbrev pub IsPlain : HttpConnection C W S → Type 0
  IsPlain (HttpConnection.plain c) = Unit {0}
  IsPlain _ = ⊥

  abbrev pub IsBuffered : HttpConnection C W S → Type 0
  IsBuffered (HttpConnection.plain_buffered w) = Unit {0}
  IsBuffered _ = ⊥

  abbrev pub IsTls : HttpConnection C W S → Type 0
  IsTls (HttpConnection.tls s) = Unit {0}
  IsTls _ = ⊥

  -- By the TLS crate, whether the scheme is `https`, and the client's configuration.
  abbrev pub HasKind : {T : Type 0} → Feature → Bool → Option T → HttpConnection C W S → Type 0
  HasKind Feature.no_tls true tls conn = ⊥
  HasKind Feature.no_tls false tls conn = IsPlain conn
  HasKind Feature.embedded_tls true none conn = IsPlain conn
  HasKind Feature.embedded_tls true (some tls) conn = IsTls conn
  HasKind Feature.embedded_tls false none conn = IsPlain conn
  HasKind Feature.embedded_tls false (some tls) conn = IsBuffered conn
  HasKind Feature.esp_mbedtls true none conn = IsPlain conn
  HasKind Feature.esp_mbedtls true (some tls) conn = IsTls conn
  HasKind Feature.esp_mbedtls false tls conn = IsPlain conn

-- What holds of a result that is no error.
abbrev OnOk : {X E A : Type 0} → (A → Type 0) → Outcome E A × X → Type 0
OnOk P (ok a, s) = P a
OnOk P (err x, s) = Unit {0}
OnOk P (panic, s) = Unit {0}

OnOk-and_then :
    {X E A B : Type 0} (P : B → Type 0) (r : Outcome E A × X) (f : A → Io X E B)
    → ((a : A) (s : X) → r ≡ (ok a, s) → OnOk P (f a s))
    → OnOk P (and_then r f)
OnOk-and_then P (ok a, s) f h = h a s refl
OnOk-and_then P (err x, s) f h = tt
OnOk-and_then P (panic, s) f h = tt

module _ {N A T C W S : Type 0} (stack : Stack N A T C S) (net : Transport C W S) where
  encrypted-IsTls :
      (network : N) (r : Outcome Error S × T) → OnOk IsTls (encrypted stack net network r)
  encrypted-IsTls network (ok session, tls) = tt
  encrypted-IsTls network (err x, tls) = tt
  encrypted-IsTls network (panic, tls) = tt

  secure_with-Kind :
      (tls : Option T) (host : Bytes) (c : C) (network : N)
      → OnOk (HasKind Feature.esp_mbedtls true tls) (secure_with stack net tls host c network)
  secure_with-Kind none host c network = tt
  secure_with-Kind (some tls) host c network = encrypted-IsTls network (stack.handshake host c tls)

  -- The same for both TLS crates.
  embedded_secure :
      (tls : Option T) (host : Bytes) (c : C) (network : N)
      → OnOk (HasKind Feature.embedded_tls true tls) (secure_with stack net tls host c network)
  embedded_secure none host c network = tt
  embedded_secure (some tls) host c network = encrypted-IsTls network (stack.handshake host c tls)

  secure-Kind :
      (feature : Feature) (host : Bytes) (c : C) (self : HttpClient N T)
      → OnOk (HasKind feature true self.tls) (secure stack net feature host c self)
  unfolding secure
  secure-Kind Feature.no_tls host c self = tt
  secure-Kind Feature.embedded_tls host c self = embedded_secure self.tls host c self.network
  secure-Kind Feature.esp_mbedtls host c self = secure_with-Kind self.tls host c self.network

  unsecured-Kind :
      (feature : Feature) (tls : Option T) (c : C)
      → HasKind feature false tls (unsecured_with stack net feature tls c)
  unsecured-Kind Feature.no_tls tls c = tt
  unsecured-Kind Feature.embedded_tls none c = tt
  unsecured-Kind Feature.embedded_tls (some tls) c = tt
  unsecured-Kind Feature.esp_mbedtls tls c = tt

  by_scheme :
      (feature : Feature) (https : Bool) (host : Bytes) (c : C) (self : HttpClient N T)
      → OnOk (HasKind feature https self.tls) (
          (if https
              then secure stack net feature host c
              else gets (λ s. unsecured_with stack net feature s.tls c))
            self)
  by_scheme feature true host c self = secure-Kind feature host c self
  by_scheme feature false host c self = unsecured-Kind feature self.tls c

  -- A call on the network leaves the configuration as it is.
  same_tls :
      {E X : Type 0} (f : E → Error) (m : Io N E X) (self self' : HttpClient N T) (x : X)
      → on_network stack net f m self ≡ (ok x, self')
      → self.tls ≡ self'.tls
  same_tls f m self self' x e = ap (λ r. r.1.tls) e

  -- A connection that `connect` opens is encrypted where the scheme is `https` and the client has a
  -- TLS configuration. It is plain, whatever the scheme, where the client has none; then, without a
  -- TLS crate, none is opened for `https`. For other schemes it is plain too, but buffered with the
  -- crate `embedded_tls` and a configuration.
  pub connect-HasKind :
      (feature : Feature) (url : Url) (self self' : HttpClient N T) (conn : HttpConnection C W S)
      → connect stack net feature url self ≡ (ok conn, self')
      → HasKind feature url.https self.tls conn
  unfolding connect
  connect-HasKind feature url self self' conn e =
      subst (OnOk (HasKind feature url.https self.tls)) e (
        OnOk-and_then _
          (on_network stack net (λ _. Error.dns) (stack.get_host_by_name url.host) self) _
          (λ remote s1 e1.
            OnOk-and_then _ (on_network stack net from_kind (stack.connect remote url.port) s1) _
              (λ c s2 e2.
                subst
                  (λ o. OnOk (HasKind feature url.https o) (
                    (if url.https
                        then secure stack net feature url.host c
                        else gets (λ s. unsecured_with stack net feature s.tls c))
                      s2))
                  (sym (
                    same_tls (λ _. Error.dns) (stack.get_host_by_name url.host) self s1 remote e1
                    ∙ same_tls from_kind (stack.connect remote url.port) s1 s2 c e2))
                  (by_scheme feature url.https url.host c s2))))
