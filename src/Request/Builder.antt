-- ===== src/Request/Builder.antt =====
-- request.rs: `Request::new` and its kin, and `DefaultRequestBuilder`, which is its request.
use reqwless.Base.{List, Bytes, some}
use reqwless.Headers.{ContentType}
use reqwless.Request.{Request, Method, Auth, default}

abbrev pub DefaultRequestBuilder : Type 0 → Type 0
DefaultRequestBuilder B = Request B

unfoldable pub new : Method → Bytes → DefaultRequestBuilder (Unit {0})
new method path = record default { method = method; path = path }

abbrev pub get : Bytes → DefaultRequestBuilder (Unit {0})
get path = new Method.get path

abbrev pub post : Bytes → DefaultRequestBuilder (Unit {0})
post path = new Method.post path

abbrev pub put : Bytes → DefaultRequestBuilder (Unit {0})
put path = new Method.put path

abbrev pub delete : Bytes → DefaultRequestBuilder (Unit {0})
delete path = new Method.delete path

abbrev pub head : Bytes → DefaultRequestBuilder (Unit {0})
head path = new Method.head path

module _ {B : Type 0} where
  unfoldable pub headers : DefaultRequestBuilder B → List (Bytes × Bytes) → DefaultRequestBuilder B
  headers self fields = record self { extra_headers = some fields }

  unfoldable pub path : DefaultRequestBuilder B → Bytes → DefaultRequestBuilder B
  path self route = record self { path = route }

  unfoldable pub body : {T : Type 0} → DefaultRequestBuilder B → T → DefaultRequestBuilder T
  body self payload = record {
    method = self.method;
    base_path = self.base_path;
    path = self.path;
    auth = self.auth;
    host = self.host;
    body = some payload;
    content_type = self.content_type;
    accept = self.accept;
    extra_headers = self.extra_headers;
  }

  unfoldable pub host : DefaultRequestBuilder B → Bytes → DefaultRequestBuilder B
  host self name = record self { host = some name }

  unfoldable pub content_type : DefaultRequestBuilder B → ContentType → DefaultRequestBuilder B
  content_type self kind = record self { content_type = some kind }

  unfoldable pub accept : DefaultRequestBuilder B → ContentType → DefaultRequestBuilder B
  accept self content_type = record self { accept = some content_type }

  unfoldable pub basic_auth : DefaultRequestBuilder B → Bytes → Bytes → DefaultRequestBuilder B
  basic_auth self username password = record self { auth = some (Auth.basic username password) }

  abbrev pub build : DefaultRequestBuilder B → Request B
  build self = self
